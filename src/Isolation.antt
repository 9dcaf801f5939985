-- ===== src/Isolation.antt =====
-- internal/runner/isolationsuite: what a case's output says of it.
pub mod Verdict
pub mod Passing
pub mod Feedback
mod Tests
