-- ===== src/Queue/Fencing.antt =====
-- Only the worker that holds a job's current claim, with a lease that lasts, changes the job.
pub mod Stale
pub mod Lapse
pub mod Later
use Prim.Native.String.{String}
use oracle_patching.Prelude.{
  ℕ, ◌+◌, ◌≤◌, ◌<◌, ◌≡◌, ◌≢◌, refl, ap, sym, subst, ◌∙◌, Bool, true, false, ◌&&◌, Option, none,
  some, arith, eq_iff, leb, ◌==◌, if◌then◌else◌,
}
use oracle_patching.Json
use oracle_patching.Json.{Json}
use oracle_patching.Exec.{Result, ok, err, Exec, pure, ensure, lift, modify, ◌>>=◌, ◌>>◌}
use oracle_patching.Exec.Triple.{
  Triple, Triple-with, Triple-weaken, Triple-guard, Triple-lift-then, Triple-modify-then,
  Triple-bind, Triple-ok,
}
use oracle_patching.Queue.Store.{
  Job, QueueError, Queue, Env, public, put_job, known, queued, running, reconciliation_required,
}
use oracle_patching.Queue.Claim.{is_active, is_busy, lapsed, holds, lease_end, blocks_node}
use oracle_patching.Queue.Lease.{
  native_task, status_is, read_owned, finish, extended, extend_lease, deferred, release,
  defer_pending, parked, require_reconciliation, is_terminal, sealed_result, is_result, given,
  outcome_of, done, conclude, complete,
}
use oracle_patching.Queue.Exclusion.{Stored, Stored-job_id, Stored-put_self}
use oracle_patching.Queue.Triples.{Owned, Triple-read_owned, Triple-finish}

-- The queue after a worker's change `f` of its job.
abbrev pub Changed :
    Env → String → String → Option String → (Job → Job) → Queue → Job → Queue → Type 0
Changed env id agent claim_token f q shown q' =
    (job : Job) × Owned env id agent claim_token job q
    × (shown ≡ public (f job))
    × (q' ≡ put_job id (f job) q)

module _ (env : Env) (id agent : String) (token claim_token : Option String) (f : Job → Job)
    (names : (job : Job) → (f job).job_id ≡ job.job_id) where
  -- One step under the lock: read, check the claim, write.
  pub Triple-change :
      {P : Queue → Type 0} (q : Queue)
      → ((s : Queue) → P s → s ≡ q)
      → Triple P
          (read_owned env id agent token claim_token >>= λ job. finish env (f job))
          (Changed env id agent claim_token f q)
          (λ s. Unit)
  Triple-change {P} q at_q =
      Triple-bind (λ job s. P s × Owned env id agent claim_token job s) _ _
        (Triple-read_owned (λ s h. tt) env id agent token claim_token (λ s job h st l. tt))
        λ job.
          Triple-finish (λ s h. tt) env (f job)
            λ s h. (
              job,
              subst (Owned env id agent claim_token job) (at_q s h.0) h.1,
              refl,
              cc (names job, Stored-job_id _ id job h.1.stored, at_q s h.0),
            )

-- What no change of a worker touches: the task, its node, its attempt and its claim generation.
pub record SameTask (before after : Job) : Type 0 where
  pub job_id : after.job_id ≡ before.job_id
  pub plan_id : after.plan_id ≡ before.plan_id
  pub task_id : after.task_id ≡ before.task_id
  pub node : after.node ≡ before.node
  pub adapter : after.adapter ≡ before.adapter
  pub attempt : after.attempt ≡ before.attempt
  pub claim_generation : after.claim_generation ≡ before.claim_generation
  pub created_at_epoch : after.created_at_epoch ≡ before.created_at_epoch
  pub payload : after.payload ≡ before.payload
  pub reconciled_by : after.reconciled_by ≡ before.reconciled_by
  pub result : after.result ≡ before.result

-- The worker keeps the job, running, and its lease ends `seconds` after the renewal.
pub record Renewed (env : Env) (agent : String) (claim_token : Option String) (seconds : ℕ)
    (before after : Job) : Type 0 where
  pub same : SameTask before after
  pub reason : after.reason ≡ before.reason
  pub status : after.status ≡ running
  pub held : holds env agent claim_token after ≡ true
  pub lease_expires_epoch : after.lease_expires_epoch ≡ some (env.later + seconds)
  pub lapses : (now : ℕ) → lapsed now after ≡ leb (env.later + seconds) now

-- No worker's claim token is that of the job.
abbrev pub Unheld : Job → Type 0
Unheld job =
    (env : Env) (agent : String) (claim_token : Option String)
    → holds env agent claim_token job ≡ false

-- The job waits for a reconciliation: it still holds back its node, and no worker may act for it.
pub record Parked (reason : String) (before after : Job) : Type 0 where
  pub same : SameTask before after
  pub status : after.status ≡ reconciliation_required
  pub claimed_by : after.claimed_by ≡ before.claimed_by
  pub lease_expires_epoch : after.lease_expires_epoch ≡ none
  pub reason_given : after.reason ≡ some reason
  pub busy : blocks_node before.node after ≡ true
  pub unheld : Unheld after

-- The job is back in the queue: no worker's, and not under way on its node.
pub record Requeued (reason : String) (before after : Job) : Type 0 where
  pub same : SameTask before after
  pub status : after.status ≡ queued
  pub claimed_by : after.claimed_by ≡ none
  pub lease_expires_epoch : after.lease_expires_epoch ≡ none
  pub reason_given : after.reason ≡ some reason
  pub idle : blocks_node before.node after ≡ false
  pub unheld : Unheld after

-- The holder of a job replaced it by one that `R` relates to it, and changed nothing else.
pub record Wrote (env : Env) (id agent : String) (claim_token : Option String)
    (R : Job → Job → Type 0) (q : Queue) (shown : Job) (q' : Queue) : Type 0 where
  pub before : Job
  pub after : Job
  pub owned : Owned env id agent claim_token before q
  pub related : R before after
  pub shown_job : shown ≡ public after
  pub stored : Stored q' id after
  pub frame : q' ≡ put_job id after q

pub Changed-Wrote :
    (env : Env) (id agent : String) (claim_token : Option String) (R : Job → Job → Type 0)
    (f : Job → Job) (q : Queue) (shown : Job) (q' : Queue)
    → ((job : Job) → (f job).job_id ≡ job.job_id)
    → ((job : Job) → known (f job).status ≡ true)
    → ((job : Job) → Owned env id agent claim_token job q → R job (f job))
    → Changed env id agent claim_token f q shown q'
    → Wrote env id agent claim_token R q shown q'
Changed-Wrote env id agent claim_token R f q shown q' names readable relates (job, owned, same, e) =
    record {
      before = job;
      after = f job;
      owned = owned;
      related = relates job owned;
      shown_job = same;
      stored =
          subst (λ s. Stored s id (f job)) (sym e)
            (Stored-put_self id (f job) q (names job ∙ Stored-job_id _ id job owned.stored)
              (readable job));
      frame = e;
    }

holds-unclaimed : (job : Job) → job.claim_token_sha256 ≡ none → Unheld job
unfolding holds
holds-unclaimed job h env agent claim_token = unclaimed claim_token
  where
    unclaimed : (t : Option String) → holds env agent t job ≡ false
    unclaimed none = ground arith
    unclaimed (some t) = rw h (ground arith)

extended-Renewed :
    (env : Env) (id agent : String) (claim_token : Option String) (seconds : ℕ) (q : Queue)
    (job : Job)
    → Owned env id agent claim_token job q
    → Renewed env agent claim_token seconds job (extended env seconds job)
unfolding extended holds lapsed is_active
extended-Renewed env id agent claim_token seconds q job owned = record {
  same = record {
    job_id = refl;
    plan_id = refl;
    task_id = refl;
    node = refl;
    adapter = refl;
    attempt = refl;
    claim_generation = refl;
    created_at_epoch = refl;
    payload = refl;
    reconciled_by = refl;
    result = refl;
  };
  reason = refl;
  status = refl;
  held = owned.held;
  lease_expires_epoch = refl;
  lapses = λ now. refl;
}

parked-Parked :
    (env : Env) (reason : String) (job : Job) → Parked reason job (parked env reason job)
unfolding parked blocks_node is_busy
parked-Parked env reason job = record {
  same = record {
    job_id = refl;
    plan_id = refl;
    task_id = refl;
    node = refl;
    adapter = refl;
    attempt = refl;
    claim_generation = refl;
    created_at_epoch = refl;
    payload = refl;
    reconciled_by = refl;
    result = refl;
  };
  status = refl;
  claimed_by = refl;
  lease_expires_epoch = refl;
  reason_given = refl;
  busy = ground (arith, eq_iff job.node job.node);
  unheld = holds-unclaimed _ refl;
}

pub deferred-Requeued :
    (env : Env) (reason : String) (job : Job) → Requeued reason job (deferred env reason job)
unfolding deferred blocks_node is_busy
deferred-Requeued env reason job = record {
  same = record {
    job_id = refl;
    plan_id = refl;
    task_id = refl;
    node = refl;
    adapter = refl;
    attempt = refl;
    claim_generation = refl;
    created_at_epoch = refl;
    payload = refl;
    reconciled_by = refl;
    result = refl;
  };
  status = refl;
  claimed_by = refl;
  lease_expires_epoch = refl;
  reason_given = refl;
  idle = ground arith;
  unheld = holds-unclaimed _ refl;
}

in_range : (n : ℕ) → (leb 30 n && leb n 3600) ≡ true → (30 ≤ n) × (n ≤ 3600)
in_range n h = ground arith

-- A renewal that returns was made by the holder of a claim whose lease had not run out, for 30 to 3600
-- seconds. The stored job is then running and still the worker's, its lease runs out exactly when
-- these seconds have passed, the rest of the job is as it was, and so is the rest of the queue.
pub extend_lease-Changed :
    (env : Env) (id agent : String) (seconds : ℕ) (token claim_token : Option String) (q q' : Queue)
    {shown : Job}
    → extend_lease env id agent seconds token claim_token q ≡ (ok shown, q')
    → ((30 ≤ seconds) × (seconds ≤ 3600))
      × Wrote env id agent claim_token (Renewed env agent claim_token seconds) q shown q'
extend_lease-Changed env id agent seconds token claim_token q q' {shown} h =
    let (range, c) =
      Triple-ok
        (λ j s.
          ((30 ≤ seconds) × (seconds ≤ 3600))
          × Changed env id agent claim_token (extended env seconds) q j s)
        _ q triple refl h in
    (
      range,
      Changed-Wrote env id agent claim_token _ (extended env seconds) q shown q'
          (λ job. unfold extended in refl) (λ job. unfold extended known in refl)
          (extended-Renewed env id agent claim_token seconds q) c,
    )
  where
    triple :
        Triple
          (λ s. s ≡ q)
          (extend_lease env id agent seconds token claim_token)
          (λ j s.
            ((30 ≤ seconds) × (seconds ≤ 3600))
            × Changed env id agent claim_token (extended env seconds) q j s)
          (λ s. Unit)
    triple =
        unfold extend_lease extended in
        Triple-guard _ _ _ (λ s p. tt)
          λ range.
            Triple-weaken _
              (Triple-change env id agent token claim_token (extended env seconds) (λ job. refl) q
                (λ s p. p))
              (λ s p. p) (λ j s c. (in_range seconds range, c)) (λ s p. p)

-- A worker's demand for reconciliation that returns was made by the holder of a claim whose lease had
-- not run out. The stored job then awaits reconciliation with the reason given, still holds back its
-- node, no worker's claim token is good for it any more, the rest of the job is as it was, and so is
-- the rest of the queue.
pub require_reconciliation-Changed :
    (env : Env) (id agent reason : String) (token claim_token : Option String) (q q' : Queue)
    {shown : Job}
    → require_reconciliation env id agent reason token claim_token q ≡ (ok shown, q')
    → Wrote env id agent claim_token (Parked reason) q shown q'
unfolding require_reconciliation parked known
require_reconciliation-Changed env id agent reason token claim_token q q' {shown} h =
    Changed-Wrote env id agent claim_token _ (parked env reason) q shown q' (λ job. refl)
      (λ job. refl) (λ job owned. parked-Parked env reason job)
      (Triple-ok (Changed env id agent claim_token (parked env reason) q) _ q
        (Triple-change env id agent token claim_token (parked env reason) (λ job. refl) q
          (λ s p. p))
        refl h)
