-- ===== src/Ctl.antt =====
-- internal/ctl: the reader of the .ctl files that isolation cases are written in, and their controller.
pub mod Tables
pub mod Reader
pub mod Split
pub mod Statements
pub mod Lexemes
pub mod Command
pub mod Addressing
pub mod Client
pub mod Service
pub mod Control
pub mod Follow
pub mod Sends
pub mod Outcomes
pub mod Orders
pub mod Script
pub mod Ends
pub mod Termination
pub mod Gone
pub mod Case
mod Tests
mod ControlTests
