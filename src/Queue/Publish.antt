-- ===== src/Queue/Publish.antt =====
-- Publishing a sealed task, and the retry of a task: `publish_task`, `publish_plan_tasks` of
-- webapp/agent_queue.py.
use oracle_patching.Prelude.{
  ℕ, ◌+◌, String, ◌<>◌, Bool, true, false, not, ◌&&◌, ◌||◌, Option, none, some, List, [], ◌∷◌, ◌==◌,
  nat_eq, string_eq, if◌then◌else◌,
}
use oracle_patching.Prelude.Dict
use oracle_patching.Adapters.{executor_path}
use oracle_patching.Json
use oracle_patching.Json.{Json}
use oracle_patching.Exec.{Result, ok, err, pure, lift, gets, modify, ensure, ◌>>=◌, ◌>>◌}
use oracle_patching.Queue.Store.{
  queued, Job, for_plan_id, for_task_id, for_node, QueueError, unsupported_adapter,
  payload_not_objects, invalid_retry_generation, cannot_rebind, reconcile_before_retry,
  history_exists, File, link, Archive, Queue, Env, Action, queue_dir, job_path, read_file,
  write_job, identifier, public,
}
use oracle_patching.Queue.Claim.{is_completed}

abbrev pub job_name : String → String → String
job_name plan_id task_id = plan_id <> "__" <> task_id

-- `payload or {}`
unfoldable pub or_empty : Json → Json
unfolding Json.truthy
or_empty payload = if Json.truthy payload then payload else Json.obj Json.end

unfoldable pub payload_ok : Json → Bool
unfolding Json.is_dict Json.get_or
payload_ok payload =
    Json.is_dict payload && Json.is_dict (Json.get_or "task" payload (Json.obj Json.end))

-- `(payload.get("task") or {}).get("retry_count", 0)`
unfoldable pub retry_count : Json → Json
unfolding Json.get Json.get_or or_empty
retry_count payload = Json.get_or "retry_count" (or_empty (Json.get "task" payload)) (Json.int 0)

-- `type(attempt) is not int or attempt < 0`
unfoldable pub as_attempt : Json → Result QueueError ℕ
as_attempt (Json.int n) = ok n
as_attempt _ = err invalid_retry_generation

-- `path.exists()`: a link that leads nowhere does not exist.
unfoldable pub exists : Option File → Bool
exists none = false
exists (some (link alive)) = alive
exists (some _) = true

abbrev pub as_some : Result QueueError Job → Result QueueError (Option Job)
as_some (ok job) = ok (some job)
as_some (err e) = err e

-- `_read_job(path) if path.exists() else None`
unfoldable pub previous : String → Action (Option Job)
unfolding exists read_file
previous id q =
    let file = Dict.get id q.jobs in
    (if exists file then as_some (read_file id file) else ok none, q)

unfoldable pub same_binding : (plan_id task_id node adapter : String) → Job → Bool
same_binding plan_id task_id node adapter old =
    (old.node == node && old.adapter == adapter)
    && (old.plan_id == plan_id && old.task_id == task_id)

unfoldable pub archived : String → ℕ → List Archive → Bool
archived id attempt [] = false
archived id attempt (a ∷ as') = (a.job_id == id && a.attempt == attempt) || archived id attempt as'

unfoldable pub add_archive : String → Job → Queue → Queue
add_archive id old q = record q {
  history = record { job_id = id; attempt = old.attempt; job = old } ∷ q.history;
}

unfoldable pub new_job :
    Env → (plan_id task_id node adapter : String) → (attempt generation : ℕ) → Json → Job
new_job env plan_id task_id node adapter attempt generation payload = record {
  job_id = job_name plan_id task_id;
  plan_id = plan_id;
  task_id = task_id;
  node = node;
  adapter = adapter;
  attempt = attempt;
  status = queued;
  claim_generation = generation;
  claimed_by = none;
  lease_expires_epoch = none;
  claim_token_sha256 = none;
  created_at_epoch = env.now;
  updated_at_epoch = env.now;
  payload = payload;
  reason = none;
  reconciled_by = none;
  result = none;
}

unfoldable pub create : Env → Job → Action Job
unfolding write_job public
create env job = do write_job env job; pure (public job)

-- The next attempt: the old record goes to the history and a new one takes its place.
unfoldable pub retry : Env → Job → Job → Action Job
unfolding archived add_archive is_completed create
retry env job old = do
  ensure (is_completed old.status && job.attempt == old.attempt + 1) reconcile_before_retry
  taken ← gets (λ q. archived job.job_id old.attempt q.history)
  ensure (not taken) history_exists
  modify (add_archive job.job_id old)
  create env (record job { claim_generation = old.claim_generation })

-- The code under the lock, for a task that is in the queue already.
unfoldable pub republish : Env → Job → Job → Action Job
unfolding same_binding retry public
republish env job old = do
  ensure (same_binding job.plan_id job.task_id job.node job.adapter old) cannot_rebind
  if old.attempt == job.attempt then pure (public old) else retry env job old

unfoldable pub publish_over : Env → Job → Option Job → Action Job
unfolding republish create
publish_over env job none = create env job
publish_over env job (some old) = republish env job old

unfoldable pub publish_task : Env → (plan_id task_id node adapter : String) → Json → Action Job
unfolding identifier executor_path or_empty payload_ok retry_count as_attempt queue_dir job_path
    previous new_job publish_over
publish_task env plan_id task_id node adapter payload = do
  identifier plan_id for_plan_id
  identifier task_id for_task_id
  identifier node for_node
  ensure (elim (executor_path adapter) [ none ↦ false | some p ↦ true ]) unsupported_adapter
  ensure (payload_ok (or_empty payload)) payload_not_objects
  attempt ← lift (as_attempt (retry_count (or_empty payload)))
  job_path env (job_name plan_id task_id)
  queue_dir env
  old ← previous (job_name plan_id task_id)
  publish_over env (new_job env plan_id task_id node adapter attempt 0 (or_empty payload)) old

-- `(plan.get("nodes") or ["local"])[0]`
unfoldable pub first_node : Json → Json
first_node (Json.arr (Json.cons n ns)) = n
first_node _ = Json.str "local"

unfoldable pub coordinator : Json → Json
unfolding Json.get Json.truthy or_empty first_node
coordinator plan =
    let named = Json.get "coordinator_node" (or_empty (Json.get "target" plan)) in
    if Json.truthy named then named else first_node (Json.get "nodes" plan)

-- `value or ""`, for an argument that must be text
unfoldable pub text : Json → String
text (Json.str s) = s
text v = ""

unfoldable pub task_node : (show : Json → String) → Json → Json → String
unfolding Json.get Json.truthy Json.is_str
task_node show plan task =
    let node = Json.get "node" task in
    let chosen =
      if not (Json.truthy node) || Json.is_str "local" node then coordinator plan else node in
    elim chosen [ Json.str s ↦ s | v ↦ show v ]

unfoldable pub is_open_task : Json → Bool
unfolding Json.get Json.is_str
is_open_task task = elim (Json.get "status" task) [
  | Json.null ↦ true
  | v ↦ Json.is_str "pending" v || (Json.is_str "ready" v || Json.is_str "queued" v)
]

-- The comprehension publishes the tasks in turn; the first refusal ends it, and what was published
-- before stays.
unfoldable pub publish_plan_tasks :
    (show : Json → String) → Env → Json → List Json → Action (List Job)
unfolding text Json.text_or task_node is_open_task publish_task Json.get
publish_plan_tasks show env plan [] = pure []
publish_plan_tasks show env plan (t ∷ ts) =
    let rest = publish_plan_tasks show env plan ts in
    if is_open_task t
    then (do
      job ←
          publish_task env (text (Json.get "plan_id" plan))
            (Json.text_or show "" (Json.get "task_id" t)) (task_node show plan t)
            (Json.text_or show "" (Json.get "adapter" t))
            (Json.obj (Json.field "stage" (Json.get "stage" t) (Json.field "task" t Json.end)))
      jobs ← rest
      pure (job ∷ jobs))
    else rest
