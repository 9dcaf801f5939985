-- ===== src/Dispatch.antt =====
-- internal/dispatch: the queue of cases, its admission policies, and what holds of every run of it.
pub mod Admission
pub mod Lanes
pub mod Queue
pub mod Claim
pub mod Complete
pub mod Window
pub mod Run
pub mod Plain
pub mod Invariant
pub mod Completion
pub mod Guarantees
pub mod Holding
pub mod LanedClaim
pub mod LanedInvariant
pub mod LanedStep
pub mod LanedCompletion
pub mod Sweep
pub mod Ownership
pub mod Owners
pub mod LanedGuarantees
pub mod Settled
pub mod OneSlot
mod Tests
mod LanedTests
