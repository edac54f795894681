-- ===== src/Evidence.antt =====
-- The evidence files of a host: webapp/evidence.py.
pub mod Store
pub mod Snapshots
