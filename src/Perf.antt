-- ===== src/Perf.antt =====
-- internal/perf: the schedule of a session.
pub mod Schedule
pub mod Grouping
pub mod Groups
pub mod Keys
pub mod Fixtures
pub mod Bounds
mod Tests
