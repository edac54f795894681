-- ===== src/Queue/Claim.antt =====
-- Claiming a job, the expiry of leases, and who may act for a job: `_expire`, `claim`, `_owned`,
-- `list_jobs` of webapp/agent_queue.py.
use oracle_patching.Prelude.{
  ℕ, ◌+◌, String, Bool, true, false, not, ◌&&◌, ◌||◌, Option, none, some, List, [], ◌∷◌, map, ◌==◌,
  ◌!=◌, nat_eq, string_eq, leb, any, select, if◌then◌else◌,
}
use oracle_patching.Prelude.Text.{str_ltb}
use oracle_patching.Json
use oracle_patching.Json.{Json}
use oracle_patching.Exec.{pure, gets, ensure, ◌>>=◌, ◌>>◌}
use oracle_patching.Queue.Store.{
  Status, queued, claimed, running, completed, reconciliation_required, other, Job, for_node,
  for_agent_id, lease_out_of_range, not_owner, lease_inactive, Env, Action, queue_dir, write_job,
  require_enrollment, identifier, public, names, read_all,
}

-- {"claimed", "running"}
unfoldable pub is_active : Status → Bool
is_active claimed = true
is_active running = true
is_active _ = false

-- {"claimed", "running", "reconciliation_required"}
unfoldable pub is_busy : Status → Bool
is_busy claimed = true
is_busy running = true
is_busy reconciliation_required = true
is_busy _ = false

unfoldable pub is_queued : Status → Bool
is_queued queued = true
is_queued _ = false

unfoldable pub is_completed : Status → Bool
is_completed completed = true
is_completed _ = false

unfoldable pub is_reconcilable : Status → Bool
is_reconcilable reconciliation_required = true
is_reconcilable _ = false

-- `int(job.get("lease_expires_epoch") or 0)`
abbrev pub lease_end : Job → ℕ
lease_end job = elim job.lease_expires_epoch [ none ↦ 0 | some t ↦ t ]

unfoldable pub lapsed : ℕ → Job → Bool
unfolding is_active
lapsed now job = is_active job.status && leb (lease_end job) now

-- What `_expire` makes of the job in memory.
unfoldable pub expired : ℕ → Job → Job
unfolding lapsed
expired now job =
    if lapsed now job
    then record job {
      status = reconciliation_required;
      updated_at_epoch = now;
      reason = some "agent lease expired; reconcile the sealed task outcome";
    }
    else job

unfoldable pub mark_lost : Env → Job → Action (Job × Bool)
unfolding expired write_job
mark_lost env job = do write_job env (expired env.now job); pure (expired env.now job, true)

-- `_expire(job, now)`, with the job as it leaves it beside the result
unfoldable pub expire : Env → Job → Action (Job × Bool)
unfolding lapsed mark_lost
expire env job = if lapsed env.now job then mark_lost env job else pure (job, false)

unfoldable pub expire_all : Env → List Job → Action (List Job)
unfolding expire
expire_all env [] = pure []
expire_all env (job ∷ jobs) = do
  (job', lost) ← expire env job
  jobs' ← expire_all env jobs
  pure (job' ∷ jobs')

unfoldable pub is_peer : Job → Job → Bool
is_peer job j = j.plan_id == job.plan_id && j.job_id != job.job_id

-- `(job.get("result") or {}).get("status") in {"success", "succeeded"}`
unfoldable pub succeeded : Job → Bool
unfolding Json.get Json.is_str
succeeded job = elim job.result [
  | none ↦ false
  | some r ↦
      Json.is_str "success" (Json.get "status" r) || Json.is_str "succeeded" (Json.get "status" r)
]

unfoldable pub is_done : Job → Bool
unfolding is_completed succeeded
is_done job = is_completed job.status && succeeded job

unfoldable pub blocks_node : String → Job → Bool
unfolding is_busy
blocks_node node j = j.node == node && is_busy j.status

unfoldable pub comes_first : Job → Job → Bool
unfolding is_done str_ltb
comes_first job j = str_ltb j.task_id job.task_id && not (is_done j)

-- A job of the loop that no `continue` skips.
unfoldable pub eligible : String → List Job → Job → Bool
unfolding is_queued is_busy is_peer select any comes_first
eligible node jobs job =
    let peers = select (is_peer job) jobs in
    (job.node == node && is_queued job.status)
    && (not (any (λ j. is_busy j.status) peers) && not (any (comes_first job) peers))

pub record Claim : Type 0 where
  pub job : Job
  pub claim_token : String

unfoldable pub granted : Env → String → ℕ → Job → Job
granted env agent lease job = record job {
  status = claimed;
  claimed_by = some agent;
  lease_expires_epoch = some (env.now + lease);
  updated_at_epoch = env.now;
  claim_generation = job.claim_generation + 1;
  claim_token_sha256 = some (env.sha256 env.token);
}

unfoldable pub grant : Env → String → ℕ → Job → Action (Option Claim)
unfolding granted write_job public
grant env agent lease job = do
  write_job env (granted env agent lease job)
  pure (some (record { job = public (granted env agent lease job); claim_token = env.token }))

-- The second `for job in jobs`.
unfoldable pub claim_first : Env → String → String → ℕ → List Job → List Job → Action (Option Claim)
unfolding eligible grant
claim_first env node agent lease jobs [] = pure none
claim_first env node agent lease jobs (job ∷ rest) =
    let later = claim_first env node agent lease jobs rest in
    if eligible node jobs job then grant env agent lease job else later

unfoldable pub claim_from : Env → String → String → ℕ → List Job → Action (Option Claim)
unfolding blocks_node any claim_first
claim_from env node agent lease jobs =
    if any (blocks_node node) jobs then pure none else claim_first env node agent lease jobs jobs

unfoldable pub claim : Env → String → String → ℕ → Option String → Action (Option Claim)
unfolding identifier require_enrollment queue_dir names read_all expire_all claim_from
claim env node agent lease token = do
  identifier node for_node
  identifier agent for_agent_id
  ensure (leb 30 lease && leb lease 3600) lease_out_of_range
  require_enrollment env agent token node
  queue_dir env
  ns ← gets names
  jobs ← read_all ns
  jobs' ← expire_all env jobs
  claim_from env node agent lease jobs'

-- `not status or job["status"] == status`: no status is `none`
unfoldable pub has_status : Option String → Status → Bool
has_status none s = true
has_status (some t) queued = t == "" || t == "queued"
has_status (some t) claimed = t == "" || t == "claimed"
has_status (some t) running = t == "" || t == "running"
has_status (some t) completed = t == "" || t == "completed"
has_status (some t) reconciliation_required = t == "" || t == "reconciliation_required"
has_status (some t) (other u) = t == "" || t == u

unfoldable pub list_jobs : Env → Option String → Action (List Job)
unfolding queue_dir names read_all has_status select public
list_jobs env status = do
  queue_dir env
  ns ← gets names
  jobs ← read_all ns
  pure (map public (select (λ j. has_status status j.status) jobs))

unfoldable pub holds : Env → String → Option String → Job → Bool
holds env agent claim_token job =
    elim job.claimed_by [ none ↦ false | some a ↦ a == agent ] && elim claim_token [
      | none ↦ false
      | some t ↦ elim job.claim_token_sha256 [
        | none ↦ false
        | some digest ↦ (if digest == "" then false else true) && env.sha256 t == digest
      ]
    ]

-- `_owned`
unfoldable pub owned : Env → Job → String → Option String → Option String → Action (Unit {0})
unfolding require_enrollment holds expire is_active
owned env job agent token claim_token = do
  require_enrollment env agent token job.node
  ensure (holds env agent claim_token job) not_owner
  (job', lost) ← expire env job
  ensure (not lost && is_active job'.status) lease_inactive
