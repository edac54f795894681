-- ===== src/Tools.antt =====
-- The tools that the pipeline runs: on the control plane (webapp/localtools.py), and the copies on the
-- hosts (webapp/tools_sync.py).
pub mod Local
pub mod Fingerprint
pub mod Install
pub mod Sync
