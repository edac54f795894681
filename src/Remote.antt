-- ===== src/Remote.antt =====
-- The ssh helpers: webapp/remote.py.
pub mod Quote
pub mod Run
pub mod Hosts
pub mod Transfer
pub mod Bounds
pub mod Withdrawn
mod Scenarios
