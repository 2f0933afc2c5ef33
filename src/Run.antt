-- ===== src/Run.antt =====
-- runtime/run_monitor.py and what reads its records: the state of runs on disk, their events, and
-- the policies on their results.
pub mod State
pub mod Payload
pub mod Display
pub mod Monitor
pub mod Endings
pub mod Listing
pub mod Policy
pub mod Queue
pub mod Retrying
pub mod Listed
pub mod Projection
pub mod Shown
pub mod Starting
pub mod Log
pub mod Cancelling
pub mod Closing
pub mod Ends
pub mod Stale
pub mod Trace
mod Tests
