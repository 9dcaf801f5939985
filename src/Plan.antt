-- ===== src/Plan.antt =====
-- internal/plan: what each case took, and the order of the next run.
pub mod Order
pub mod Schedule
pub mod Sizes
pub mod SizeLines
pub mod SizeFile
mod Tests
