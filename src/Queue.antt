-- ===== src/Queue.antt =====
-- The pull agents' work queue: webapp/agent_queue.py.
pub mod Store
pub mod Claim
pub mod Lease
pub mod Publish
pub mod Reconcile
pub mod Exclusion
pub mod Triples
pub mod Fencing
pub mod Scan
pub mod Runs
pub mod Attempts
pub mod Closing
pub mod Finding
mod Scenarios
