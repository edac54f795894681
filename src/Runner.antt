-- ===== src/Runner.antt =====
-- The run engine: webapp/pipeline_runner.py. The state is what one controller keeps in memory (`RUNS`,
-- `_ACTIVE_KEYS`) and the files `run.json` under `RUNS_DIR`. A worker thread is the steps `begin`,
-- `log`, `set_execution_context` and `settle`; `fn` itself and `inspect` are what they give back.
pub mod Record
pub mod Work
pub mod Close
pub mod Dedupe
pub mod Start
pub mod Steps
pub mod Traces
pub mod Verdicts
mod Scenarios
