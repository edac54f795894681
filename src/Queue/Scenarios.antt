-- ===== src/Queue/Scenarios.antt =====
-- One task from its publication to its end.
mod Witnesses
mod Worker
use Prim.Native.String.{String}
use mathlib.Core.List.{Memᴰ}
use oracle_patching.Prelude.{
  ℕ, ◌≡◌, ◌≢◌, ◌≤◌, refl, inl, inr, ◌<>◌, Bool, true, false, Option, none, some, List, [], ◌∷◌,
  arith, any, mem-cases,
}
use oracle_patching.Prelude.Text.{id_fullmatch, codes, has_dotdot, is_on}
use oracle_patching.Prelude.Dict
use oracle_patching.Json.{Json}
use oracle_patching.Json
use oracle_patching.Enroll.{Registry}
use oracle_patching.Exec.{ok, err, ◌>>=◌}
use oracle_patching.Queue.Store.{
  Status, queued, claimed, completed, reconciliation_required, Job, doc, Queue, Env, Command,
  public, valid_job_id, read_file,
}
use oracle_patching.Queue.Claim.{
  Claim, eligible, granted, claim, lapsed, expired, blocks_node, list_jobs, is_busy,
}
use oracle_patching.Queue.Lease.{
  extended, extend_lease, deferred, defer_pending, parked, require_reconciliation, given, done,
  complete,
}
use oracle_patching.Queue.Publish.{new_job, or_empty, retry_count, as_attempt, publish_task}
use oracle_patching.Queue.Reconcile.{reconcile}

abbrev pub task : (state plan_id task_id : String) → Json
task state plan_id task_id = Json.obj (
    Json.field "plan_id" (Json.str plan_id) (
      Json.field "task_id" (Json.str task_id) (
        Json.field "adapter" (Json.str "grid_rolling_opatch")
          (Json.field "retry_count" (Json.int 0) (Json.field "status" (Json.str state) Json.end)))))

-- The sealed task is in the state `state`.
abbrev pub world : String → Env
world state = record {
  now = 1000;
  later = 1001;
  directories_safe = true;
  enrollment_required = "";
  test_mode = "";
  plan_state_dir = "/var/lib/opu";
  registry = Registry.missing;
  token = "tok";
  sha256 = λ t. "digest of " <> t;
  plan_tool = λ command plan_id task_id. some (task state plan_id task_id);
}

abbrev pub late_world : Env
late_world = record (world "succeeded") { now = 2000; later = 2001 }

abbrev pub payload : Json
payload = Json.obj (Json.field "task" (task "pending" "plan1" "task1") Json.end)

abbrev pub first_job : Job
first_job = record {
  job_id = "plan1__task1";
  plan_id = "plan1";
  task_id = "task1";
  node = "node1";
  adapter = "grid_rolling_opatch";
  attempt = 0;
  status = queued;
  claim_generation = 0;
  claimed_by = none;
  lease_expires_epoch = none;
  claim_token_sha256 = none;
  created_at_epoch = 1000;
  updated_at_epoch = 1000;
  payload = payload;
  reason = none;
  reconciled_by = none;
  result = none;
}

abbrev pub claimed_job : Job
claimed_job = record first_job {
  status = claimed;
  claimed_by = some "agent1";
  lease_expires_epoch = some 1060;
  claim_generation = 1;
  claim_token_sha256 = some "digest of tok";
}

abbrev pub ended_job : Job
ended_job = record claimed_job {
  status = completed;
  updated_at_epoch = 1001;
  lease_expires_epoch = none;
  result = some (
      Json.obj (
        Json.field "status" (Json.str "failed") (
          Json.field "source" (Json.str "sealed_plan_task")
            (Json.field "task" (task "failed" "plan1" "task1") Json.end))));
}

abbrev pub reconciled_job : Job
reconciled_job = record claimed_job {
  status = completed;
  updated_at_epoch = 2000;
  lease_expires_epoch = none;
  reason = some "agent lease expired; reconcile the sealed task outcome";
  reconciled_by = some "operator";
  result = some (
      Json.obj (
        Json.field "status" (Json.str "succeeded") (
          Json.field "source" (Json.str "sealed_plan_task")
            (Json.field "task" (task "succeeded" "plan1" "task1") Json.end))));
}

abbrev pub holding : Job → Queue
holding job = record { jobs = (job.job_id, doc job) ∷ []; history = [] }

abbrev pub empty : Queue
empty = record { jobs = []; history = [] }

pub publish_first :
    publish_task (world "pending") "plan1" "task1" "node1" "grid_rolling_opatch" payload empty
    ≡ (ok first_job, holding first_job)
unfolding publish_task ◌>>=◌ id_fullmatch codes has_dotdot is_on valid_job_id read_file Dict.get
    Dict.put Dict.keys
publish_first = refl

pub claim_first :
    claim (world "pending") "node1" "agent1" 60 none (holding first_job)
    ≡ (ok (some (record { job = public claimed_job; claim_token = "tok" })), holding claimed_job)
unfolding claim public ◌>>=◌ id_fullmatch codes has_dotdot is_on valid_job_id read_file Dict.get
    Dict.put Dict.keys
claim_first = refl

pub extend_first :
    extend_lease
      (world "pending")
      "plan1__task1"
      "agent1"
      90
      none
      (some "tok")
      (holding claimed_job)
    ≡ (
      ok (public (extended (world "pending") 90 claimed_job)),
      holding (extended (world "pending") 90 claimed_job),
    )
unfolding extend_lease extended public ◌>>=◌ id_fullmatch codes has_dotdot is_on valid_job_id
    read_file Dict.get Dict.put Dict.keys
extend_first = refl

pub park_first :
    require_reconciliation
      (world "pending")
      "plan1__task1"
      "agent1"
      "lost"
      none
      (some "tok")
      (holding claimed_job)
    ≡ (
      ok (public (parked (world "pending") "lost" claimed_job)),
      holding (parked (world "pending") "lost" claimed_job),
    )
unfolding require_reconciliation parked public ◌>>=◌ id_fullmatch codes has_dotdot is_on
    valid_job_id read_file Dict.get Dict.put Dict.keys
park_first = refl

pub defer_first :
    defer_pending
      (world "pending")
      (world "pending")
      (λ s. s)
      "plan1__task1"
      "agent1"
      "wait"
      none
      (some "tok")
      (holding claimed_job)
    ≡ (
      ok (public (deferred (world "pending") "wait" claimed_job)),
      holding (deferred (world "pending") "wait" claimed_job),
    )
unfolding defer_pending deferred public ◌>>=◌ id_fullmatch codes has_dotdot is_on valid_job_id
    read_file Dict.get Dict.put Dict.keys
defer_first = refl

pub complete_first :
    complete
      (world "failed")
      (world "failed")
      (λ s. s)
      "plan1__task1"
      "agent1"
      none
      none
      (some "tok")
      (holding claimed_job)
    ≡ (ok (public ended_job), holding ended_job)
unfolding complete public ◌>>=◌ id_fullmatch codes has_dotdot is_on valid_job_id read_file Dict.get
    Dict.put Dict.keys
complete_first = refl

pub reconcile_first :
    reconcile late_world late_world (λ s. s) "plan1__task1" "operator" (holding claimed_job)
    ≡ (ok (public reconciled_job), holding reconciled_job)
unfolding reconcile public ◌>>=◌ id_fullmatch codes has_dotdot is_on valid_job_id read_file Dict.get
    Dict.put Dict.keys
reconcile_first = refl

pub list_first :
    list_jobs (world "pending") (some "claimed") (holding claimed_job)
    ≡ (ok (public claimed_job ∷ []), holding claimed_job)
unfolding list_jobs public ◌>>=◌ id_fullmatch codes has_dotdot is_on valid_job_id read_file Dict.get
    Dict.put Dict.keys
list_first = refl
