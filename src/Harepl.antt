-- ===== src/Harepl.antt =====
-- internal/runner/hareplsuite: a case's statements, how they are sent and taken apart again, and the
-- verdicts of a run as they are kept for the next.
pub mod Statements
pub mod Batch
pub mod Markers
pub mod Answers
pub mod Attribution
pub mod Segments
pub mod Whole
pub mod Cutting
pub mod Scripts
pub mod Convert
pub mod Inserts
pub mod Heads
pub mod Conversion
pub mod KeyColumn
pub mod Pieces
pub mod Ledger
pub mod Resume
mod Tests
mod BatchTests
mod ConvertTests
