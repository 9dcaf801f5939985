-- ===== src/Sizing.antt =====
-- internal/sizing: how many slots a run gets.
pub mod Records
pub mod Slots
pub mod Fit
pub mod Knee
mod Tests
