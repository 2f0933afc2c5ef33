-- ===== src/Ingest.antt =====
-- runtime/transactional_ingest.py: the store of ingest tasks, attempts, leases and source heads.
pub mod State
pub mod Tasks
pub mod Recovery
pub mod Materialize
pub mod Publish
pub mod Purge
pub mod Migration
pub mod Outcomes
pub mod OutcomesMore
pub mod History
pub mod Safety
pub mod Epochs
pub mod Fencing
pub mod Cancelling
pub mod Resubmission
pub mod Facts
pub mod Freshness
pub mod Heads
pub mod Windows
pub mod Rounds
pub mod Consistent
pub mod Invariant
pub mod Writes
pub mod Kept
pub mod Stopping
pub mod Reaping
pub mod Admissions
pub mod Publishing
pub mod Purging
pub mod Erasing
pub mod Readers
pub mod Executor
pub mod Summary
pub mod Session
pub mod Execution
pub mod Claiming
pub mod Materializer
pub mod Added
pub mod Inputs
pub mod Republishing
mod Tests
