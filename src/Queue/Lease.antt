-- ===== src/Queue/Lease.antt =====
-- What a worker does with the job that it claimed: `extend_lease`, `defer_pending`,
-- `require_reconciliation`, `complete` of webapp/agent_queue.py, and the questions to
-- bin/opu-patch-plan. Each `with file_lock(…)` is one step. Between the two steps of `defer_pending`
-- and of `complete` other processes may do anything to the queue: `between`.
use oracle_patching.Prelude.{
  ℕ, ◌+◌, String, Bool, true, false, ◌&&◌, ◌||◌, Option, none, some, ◌==◌, nat_eq, string_eq, leb,
  if◌then◌else◌,
}
use oracle_patching.Json
use oracle_patching.Json.{Json}
use oracle_patching.Exec.{Result, ok, err, pure, lift, modify, ensure, ◌>>=◌, ◌>>◌}
use oracle_patching.Queue.Store.{
  queued, running, completed, reconciliation_required, Job, QueueError, lease_out_of_range,
  plan_state_dir_required, sealed_task_unavailable, sealed_task_mismatch, not_pending,
  not_deferrable, result_not_object, no_terminal_outcome, Queue, Command, task_status, next, Env,
  Action, queue_dir, job_path, read_job, write_job, public,
}
use oracle_patching.Queue.Claim.{owned}

-- `Path(state).is_absolute()`, false of the empty text
unfoldable pub is_absolute : String → Bool
is_absolute String.[] = false
is_absolute (String.◌∷◌ c s) = Prim.Native.Char.code c == b'/'

-- The `dict` that the tool printed.
unfoldable pub as_dict : Option Json → Result QueueError Json
as_dict none = err sealed_task_unavailable
as_dict (some v) = if Json.is_dict v then ok v else err sealed_task_unavailable

unfoldable pub native_json : Env → Command → Job → Result QueueError Json
unfolding is_absolute as_dict Json.is_dict
native_json env command job =
    if is_absolute env.plan_state_dir
    then as_dict (env.plan_tool command job.plan_id job.task_id)
    else err plan_state_dir_required

-- The sealed task is the one of this job, at this attempt.
unfoldable pub matches : Job → Json → Bool
unfolding Json.get Json.get_or Json.is_str Json.is_int Json.typed_int
matches job task =
    (Json.is_str job.plan_id (Json.get "plan_id" task)
      && Json.is_str job.task_id (Json.get "task_id" task))
    && (Json.is_str job.adapter (Json.get "adapter" task)
        && (Json.typed_int (Json.get_or "retry_count" task (Json.int 0))
            && Json.is_int job.attempt (Json.get_or "retry_count" task (Json.int 0))))

unfoldable pub matched : Job → Result QueueError Json → Result QueueError Json
unfolding matches
matched job (ok task) = if matches job task then ok task else err sealed_task_mismatch
matched job (err e) = err e

unfoldable pub native_task : Env → Job → Result QueueError Json
unfolding native_json matched
native_task env job = matched job (native_json env task_status job)

unfoldable pub status_is : String → Json → Bool
unfolding Json.get Json.is_str
status_is text task = Json.is_str text (Json.get "status" task)

unfoldable pub is_terminal : Json → Bool
unfolding status_is
is_terminal task = status_is "succeeded" task || status_is "failed" task

unfoldable pub is_next : Job → Result QueueError Json → Bool
unfolding Json.get Json.get_or Json.is_str Json.is_int
is_next job (err e) = false
is_next job (ok n) =
    (Json.is_str job.plan_id (Json.get "plan_id" n)
      && Json.is_str job.task_id (Json.get "task_id" n))
    && Json.is_int job.attempt (Json.get_or "retry_count" n (Json.int 0))

unfoldable pub ready_if : Env → Job → Result QueueError Json → Result QueueError Bool
unfolding status_is is_next native_json
ready_if env job (err e) = err e
ready_if env job (ok task) =
    if status_is "pending" task
    then ok (is_next job (native_json env next job))
    else err not_pending

unfoldable pub native_ready : Env → Job → Result QueueError Bool
unfolding native_task ready_if
native_ready env job = ready_if env job (native_task env job)

-- `path = _job_path(job_id); job = _read_job(path); _owned(job, …)` under the lock
unfoldable pub read_owned : Env → String → String → Option String → Option String → Action Job
unfolding queue_dir job_path read_job owned
read_owned env id agent token claim_token = do
  queue_dir env
  job_path env id
  job ← read_job id
  owned env job agent token claim_token
  pure job

-- `_write_job(path, job); return _public(job)`, where `path` is that of the job read
unfoldable pub finish : Env → Job → Action Job
unfolding write_job public
finish env job = do write_job env job; pure (public job)

unfoldable pub extended : Env → ℕ → Job → Job
extended env seconds job = record job {
  status = running;
  lease_expires_epoch = some (env.later + seconds);
  updated_at_epoch = env.later;
}

unfoldable pub extend_lease : Env → String → String → ℕ → Option String → Option String → Action Job
unfolding read_owned extended finish
extend_lease env id agent seconds token claim_token = do
  ensure (leb 30 seconds && leb seconds 3600) lease_out_of_range
  job ← read_owned env id agent token claim_token
  finish env (extended env seconds job)

unfoldable pub deferred : Env → String → Job → Job
deferred env reason job = record job {
  claim_token_sha256 = none;
  status = queued;
  claimed_by = none;
  lease_expires_epoch = none;
  updated_at_epoch = env.later;
  reason = some reason;
}

-- The second step of `defer_pending`.
unfoldable pub release : Env → String → String → String → Option String → Option String → Action Job
unfolding read_owned deferred finish
release env id agent reason token claim_token = do
  job ← read_owned env id agent token claim_token
  finish env (deferred env reason job)

unfoldable pub defer_pending :
    (first second : Env) (between : Queue → Queue)
    → String
    → String
    → String
    → Option String
    → Option String
    → Action Job
unfolding read_owned native_task status_is release
defer_pending first second between id agent reason token claim_token = do
  job ← read_owned first id agent token claim_token
  task ← lift (native_task first job)
  ensure (status_is "pending" task) not_deferrable
  modify between
  release second id agent reason token claim_token

unfoldable pub parked : Env → String → Job → Job
parked env reason job = record job {
  claim_token_sha256 = none;
  status = reconciliation_required;
  lease_expires_epoch = none;
  updated_at_epoch = env.later;
  reason = some reason;
}

unfoldable pub require_reconciliation :
    Env → String → String → String → Option String → Option String → Action Job
unfolding read_owned parked finish
require_reconciliation env id agent reason token claim_token = do
  job ← read_owned env id agent token claim_token
  finish env (parked env reason job)

-- `{**(result or {}), "status": …, "source": "sealed_plan_task", "task": task}`
unfoldable pub sealed_result : Json.Fields → Json → Json
unfolding status_is Json.set_field
sealed_result fs task =
    let outcome = if status_is "succeeded" task then "success" else "failed" in
    Json.obj (
      Json.set_field "task" task (
        Json.set_field "source" (Json.str "sealed_plan_task")
          (Json.set_field "status" (Json.str outcome) fs)))

-- The argument `result`, once it is known to be `None` or a `dict`.
unfoldable pub given : Option Json → Json.Fields
unfolding Json.fields
given none = Json.end
given (some v) = Json.fields v

unfoldable pub is_result : Option Json → Bool
unfolding Json.is_dict
is_result none = true
is_result (some v) = Json.is_dict v

-- `OPU_AGENT_TEST_MODE` is `1`: the result is taken as it is given.
unfoldable pub outcome_of : Env → Job → Json.Fields → Result QueueError Json
unfolding native_task is_terminal sealed_result
outcome_of env job fs =
    if env.test_mode == "1" then ok (Json.obj fs) else elim (native_task env job) [
      | err e ↦ err e
      | ok task ↦ if is_terminal task then ok (sealed_result fs task) else err no_terminal_outcome
    ]

unfoldable pub done : Env → Json → Job → Job
done env result job = record job {
  status = completed;
  updated_at_epoch = env.later;
  result = some result;
  lease_expires_epoch = none;
}

-- The second step of `complete`.
unfoldable pub conclude : Env → String → String → Json → Option String → Option String → Action Job
unfolding read_owned done finish
conclude env id agent outcome token claim_token = do
  job ← read_owned env id agent token claim_token
  finish env (done env outcome job)

unfoldable pub complete :
    (first second : Env) (between : Queue → Queue)
    → String
    → String
    → Option Json
    → Option String
    → Option String
    → Action Job
unfolding is_result given read_owned outcome_of conclude
complete first second between id agent result token claim_token = do
  ensure (is_result result) result_not_object
  job ← read_owned first id agent token claim_token
  outcome ← lift (outcome_of first job (given result))
  modify between
  conclude second id agent outcome token claim_token
