-- ===== src/Result.antt =====
-- internal/result: the table that gives the summary files their order.
pub mod Utf16
pub mod Jtable
pub mod Buckets
pub mod Growth
pub mod Steps
pub mod Refinement
mod Tests
