-- ===== src/Shell.antt =====
-- internal/runner/shellsuite: the cases of a run, their scenario tree, and what is taken back of it.
pub mod Case
pub mod Segments
pub mod Directories
pub mod Tree
pub mod Reclaim
pub mod Corpus
pub mod Retirement
mod Tests
