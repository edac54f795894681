-- ===== src/Queue/Store.antt =====
-- The jobs of webapp/agent_queue.py, the directory that holds them, and the errors. A job is the
-- record that `publish_task` writes; what the code takes from a job by `get` with a default is an
-- `Option`, or a number with that default.
use oracle_patching.Prelude.{
  ℕ, String, ◌<>◌, Bool, true, false, not, ◌&&◌, ◌||◌, Option, none, some, List, [], ◌∷◌, ◌==◌,
  nat_eq, string_eq, if◌then◌else◌,
}
use oracle_patching.Prelude.Text.{codes, id_fullmatch, has_dotdot, is_on, str_ltb}
use oracle_patching.Prelude.Dict
use oracle_patching.Json.{Json}
use oracle_patching.Enroll.{Registry, verify}
use oracle_patching.Exec.{Result, ok, err, Exec, pure, modify, ensure, ◌>>=◌, ◌>>◌}

-- `other` is any text that is no state of a job.
pub data Status : Type 0 where
  queued claimed running completed reconciliation_required : Status
  other : String → Status

pub record Job : Type 0 where
  pub job_id : String
  pub plan_id : String
  pub task_id : String
  pub node : String
  pub adapter : String
  pub attempt : ℕ
  pub status : Status
  pub claim_generation : ℕ
  pub claimed_by : Option String
  pub lease_expires_epoch : Option ℕ
  pub claim_token_sha256 : Option String
  pub created_at_epoch : ℕ
  pub updated_at_epoch : ℕ
  pub payload : Json
  pub reason : Option String
  pub reconciled_by : Option String
  pub result : Option Json

pub data Label : Type 0 where
  for_plan_id for_task_id for_node for_agent_id for_actor : Label

-- The texts of `QueueError`; `status_code` gives the HTTP status of each.
pub data QueueError : Type 0 where
  unsafe_directories invalid_job_id job_missing record_unreadable enrollment_failed : QueueError
  invalid : Label → QueueError
  unsupported_adapter payload_not_objects invalid_retry_generation cannot_rebind : QueueError
  reconcile_before_retry history_exists lease_out_of_range not_owner lease_inactive : QueueError
  plan_state_dir_required sealed_task_unavailable sealed_task_mismatch not_pending : QueueError
  not_deferrable result_not_object no_terminal_outcome not_reconcilable attempt_changed : QueueError
  not_terminal renewal_failed : QueueError

unfoldable pub status_code : QueueError → ℕ
status_code unsafe_directories = 400
status_code invalid_job_id = 400
status_code job_missing = 404
status_code enrollment_failed = 403
status_code (invalid l) = 400
status_code unsupported_adapter = 400
status_code payload_not_objects = 400
status_code invalid_retry_generation = 400
status_code lease_out_of_range = 400
status_code result_not_object = 400
status_code _ = 409

-- A file of `jobs/`: a symbolic link (and whether it leads anywhere), a file that gives no `dict`,
-- or a `dict`.
pub data File : Type 0 where
  link : Bool → File
  unreadable : File
  doc : Job → File

abbrev pub Files : Type 0
Files = List (String × File)

-- `history/<job_id>/attempt-<attempt>.json`
pub record Archive : Type 0 where
  pub job_id : String
  pub attempt : ℕ
  pub job : Job

-- The queue directory; a file of `jobs/` goes by its name without `.json`.
pub record Queue : Type 0 where
  pub jobs : Files
  pub history : List Archive

pub data Command : Type 0 where
  task_status next : Command

-- What the process and the world around it give to one call.
pub record Env : Type 0 where
  pub now : ℕ  -- the first reading of the clock
  pub later : ℕ  -- the second
  pub directories_safe : Bool  -- the test of `queue_dir`
  pub enrollment_required : String  -- the environment's texts, "" where they are not set
  pub test_mode : String
  pub plan_state_dir : String
  pub registry : Registry
  pub token : String  -- `secrets.token_urlsafe`
  pub sha256 : String → String
  -- bin/opu-patch-plan on a plan and a task: what it prints, if it exits with 0 in time
  pub plan_tool : Command → String → String → Option Json

abbrev pub Action : Type 0 → Type 0
Action = Exec QueueError Queue

unfoldable pub queue_dir : Env → Action (Unit {0})
unfolding ensure
queue_dir env = ensure env.directories_safe unsafe_directories

unfoldable pub valid_job_id : String → Bool
valid_job_id id = id_fullmatch 249 (codes id) && not (has_dotdot (codes id))

unfoldable pub job_path : Env → String → Action (Unit {0})
unfolding queue_dir
job_path env id = do ensure (valid_job_id id) invalid_job_id; queue_dir env

unfoldable pub known : Status → Bool
known (other t) = false
known _ = true

-- `_read_job`, from the file's content
unfoldable pub read_file : String → Option File → Result QueueError Job
unfolding known
read_file stem none = err job_missing
read_file stem (some (link alive)) = err job_missing
read_file stem (some unreadable) = err record_unreadable
read_file stem (some (doc job)) =
    if job.job_id == stem && known job.status then ok job else err record_unreadable

unfoldable pub read_job : String → Action Job
read_job stem q = (read_file stem (Dict.get stem q.jobs), q)

unfoldable pub put_job : String → Job → Queue → Queue
put_job id job q = record q { jobs = Dict.put id (doc job) q.jobs }

-- `_write_job(_job_path(job_id), job)`
unfoldable pub write_job : Env → Job → Action (Unit {0})
unfolding job_path put_job
write_job env job = do job_path env job.job_id; modify (put_job job.job_id job)

unfoldable pub enrolled : Env → String → Option String → String → Bool
enrolled env agent none node = false
enrolled env agent (some t) node =
    (if t == "" then false else true) && verify env.sha256 env.registry agent t (some node)

unfoldable pub require_enrollment : Env → String → Option String → String → Action (Unit {0})
unfolding ensure enrolled
require_enrollment env agent token node =
    ensure (not (is_on env.enrollment_required) || enrolled env agent token node) enrollment_failed

unfoldable pub identifier : String → Label → Action (Unit {0})
unfolding ensure
identifier value label = ensure (id_fullmatch 127 (codes value)) (invalid label)

-- `_public`: the digest of the claim token stays in the file.
unfoldable pub public : Job → Job
public job = record job { claim_token_sha256 = none }

-- `sorted(… .glob("*.json"))`: the paths differ in their last part only.
unfoldable pub insert_name : String → List String → List String
insert_name n [] = n ∷ []
insert_name n (m ∷ ms) =
    if str_ltb (m <> ".json") (n <> ".json") then m ∷ insert_name n ms else n ∷ m ∷ ms

unfoldable pub sort_names : List String → List String
unfolding insert_name
sort_names [] = []
sort_names (n ∷ ns) = insert_name n (sort_names ns)

unfoldable pub names : Queue → List String
unfolding sort_names
names q = sort_names (Dict.keys q.jobs)

unfoldable pub read_all : List String → Action (List Job)
unfolding read_job
read_all [] = pure []
read_all (n ∷ ns) = do job ← read_job n; jobs ← read_all ns; pure (job ∷ jobs)
