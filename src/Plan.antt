-- ===== src/Plan.antt =====
-- The control of plans: webapp/planctl.py. Which hosts a plan's nodes are, and the execution of its
-- tasks one after the other.
pub mod Nodes
pub mod Wired
pub mod Execute
pub mod Orderly
pub mod Detached
pub mod Poll
pub mod Verified
mod Scenarios
