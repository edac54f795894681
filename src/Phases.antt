-- ===== src/Phases.antt =====
-- The discovery phases of a topology snapshot: webapp/discovery_phases.py.
pub mod Values
pub mod Defs
pub mod Host
pub mod Cluster
pub mod Derive
pub mod Passed
pub mod Runtimes
pub mod Rollup
mod Scenarios
