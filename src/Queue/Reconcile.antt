-- ===== src/Queue/Reconcile.antt =====
-- Closing a job whose worker lost its lease or gave up: `reconcile` of webapp/agent_queue.py.
use oracle_patching.Prelude.{String, ◌&&◌, Bool, some, none, ◌==◌, nat_eq, string_eq}
use oracle_patching.Json
use oracle_patching.Json.{Json}
use oracle_patching.Exec.{pure, lift, modify, ensure, ◌>>=◌, ◌>>◌}
use oracle_patching.Queue.Store.{
  completed, Job, for_actor, no_terminal_outcome, not_reconcilable, attempt_changed, Queue, Env,
  Action, queue_dir, job_path, read_job, identifier,
}
use oracle_patching.Queue.Claim.{is_reconcilable, expire}
use oracle_patching.Queue.Lease.{native_task, is_terminal, finish}

-- {"status": task["status"], "source": "sealed_plan_task", "task": task}
unfoldable pub verified_result : Json → Json
unfolding Json.get
verified_result task = Json.obj (
    Json.field "status" (Json.get "status" task)
      (Json.field "source" (Json.str "sealed_plan_task") (Json.field "task" task Json.end)))

unfoldable pub reconciled : Env → String → Json → Job → Job
unfolding verified_result
reconciled env actor task job = record job {
  status = completed;
  lease_expires_epoch = none;
  updated_at_epoch = env.now;
  reconciled_by = some actor;
  result = some (verified_result task);
}

unfoldable pub unchanged : Job → Job → Bool
unfolding is_reconcilable
unchanged before job =
    is_reconcilable job.status
    && (job.claim_generation == before.claim_generation && job.attempt == before.attempt)

-- The first step, under the lock.
unfoldable pub read_lapsed : Env → String → Action Job
unfolding queue_dir read_job expire is_reconcilable
read_lapsed env id = do
  queue_dir env
  job ← read_job id
  (job', lost) ← expire env job
  ensure (is_reconcilable job'.status) not_reconcilable
  pure job'

-- The second.
unfoldable pub close : Env → String → String → Job → Json → Action Job
unfolding queue_dir read_job unchanged reconciled finish
close env id actor before task = do
  queue_dir env
  job ← read_job id
  ensure (unchanged before job) attempt_changed
  finish env (reconciled env actor task job)

unfoldable pub reconcile :
    (first second : Env) (between : Queue → Queue) → String → String → Action Job
unfolding identifier job_path read_lapsed native_task is_terminal close
reconcile first second between id actor = do
  identifier actor for_actor
  job_path first id
  job ← read_lapsed first id
  task ← lift (native_task first job)
  ensure (is_terminal task) no_terminal_outcome
  modify between
  close second id actor job task
