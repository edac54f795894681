-- ===== src/Pipeline.antt =====
-- The steps of the readiness pipeline: webapp/pipeline_steps.py.
pub mod Targets
pub mod Collect
pub mod Compat
pub mod Refresh
pub mod Chain
pub mod Reads
pub mod Layers
pub mod Writes
pub mod Rules
pub mod Orderly
pub mod Built
pub mod Approved
pub mod Owner
pub mod Media
pub mod StageNodes
pub mod Stage
pub mod Overview
pub mod Finds
pub mod StageReads
pub mod Staged
pub mod Shown
mod Scenarios
