-- ===== src/Queue/Exclusion/Workers.antt =====
-- The steps of publishers, workers and operators keep the exclusion.
use Prim.Native.String.{String}
use oracle_patching.Prelude.{ℕ, ◌≡◌, refl, sym, subst, ◌∙◌, true, false, Option, arith}
use oracle_patching.Json.{Json}
use oracle_patching.Exec.{pure, ◌>>=◌}
use oracle_patching.Exec.Triple.{Triple, Triple-pure, Triple-weaken, Triple-guard, Triple-bind}
use oracle_patching.Queue.Store.{Status, completed, not_reconcilable, Job, Queue, Env, put_job}
use oracle_patching.Queue.Claim.{is_active, is_busy, is_reconcilable, lapsed, expired}
use oracle_patching.Queue.Lease.{
  read_owned, finish, extended, extend_lease, deferred, release, parked, require_reconciliation,
  done, conclude,
}
use oracle_patching.Queue.Reconcile.{read_lapsed, close, reconciled}
use oracle_patching.Queue.Exclusion.{
  Stored, Stored-job_id, Exclusive, put_settled-Exclusive, put_idle-Exclusive,
}
use oracle_patching.Queue.Triples.{
  Owned, Triple-queue_dir, Triple-read_job, Triple-expire, Triple-read_owned, Triple-finish,
  job_id-expired,
}

pub expired-busy : (now : ℕ) (job : Job) → lapsed now job ≡ true → is_busy job.status ≡ true
unfolding lapsed is_active is_busy
expired-busy now job h = ground arith

pub node-expired : (now : ℕ) (job : Job) → (expired now job).node ≡ job.node
unfolding expired
node-expired now job = ground arith

pub plan_id-expired : (now : ℕ) (job : Job) → (expired now job).plan_id ≡ job.plan_id
unfolding expired
plan_id-expired now job = ground arith

-- A lease that runs out.
pub expired-Exclusive :
    (now : ℕ) (id : String) (job : Job) (q : Queue)
    → Exclusive q
    → Stored q id job
    → lapsed now job ≡ true
    → Exclusive (put_job id (expired now job) q)
expired-Exclusive now id job q ex st l =
    put_settled-Exclusive id job (expired now job) q ex st (node-expired now job)
      (plan_id-expired now job) (λ b. expired-busy now job l)

active-busy : (s : Status) → is_active s ≡ true → is_busy s ≡ true
unfolding is_active is_busy
active-busy s h = ground arith

-- The holder's change of its job.
change-Exclusive :
    (env : Env) (id agent : String) (token claim_token : Option String) (f : Job → Job)
    → ((job : Job) → (f job).job_id ≡ job.job_id)
    → ((job : Job) → (f job).node ≡ job.node)
    → ((job : Job) → (f job).plan_id ≡ job.plan_id)
    → Triple Exclusive
        (read_owned env id agent token claim_token >>= λ job. finish env (f job))
        (λ _. Exclusive)
        Exclusive
change-Exclusive env id agent token claim_token f names nodes plans =
    Triple-bind (λ job q. Exclusive q × Owned env id agent claim_token job q) _ _
      (Triple-read_owned (λ q h. h) env id agent token claim_token
        (λ q job ex st l. expired-Exclusive env.now id job q ex st l))
      λ job.
        Triple-finish (λ q h. h.0) env (f job)
          λ q h.
            put_settled-Exclusive (f job).job_id job (f job) q h.0
              (subst (λ x. Stored q x job) (sym (names job ∙ Stored-job_id _ id job h.1.stored))
                h.1.stored)
              (nodes job) (plans job) (λ b. active-busy job.status h.1.active)

module _ (env : Env) (id agent : String) (token claim_token : Option String) where
  pub read_owned-Exclusive :
      Triple Exclusive (read_owned env id agent token claim_token) (λ _. Exclusive) Exclusive
  read_owned-Exclusive =
      Triple-weaken _
        (Triple-read_owned (λ q h. h) env id agent token claim_token
          (λ q job ex st l. expired-Exclusive env.now id job q ex st l))
        (λ q h. h) (λ job q h. h.0) (λ q h. h)

  pub extend_lease-Exclusive :
      (seconds : ℕ)
      → Triple Exclusive
          (extend_lease env id agent seconds token claim_token)
          (λ _. Exclusive)
          Exclusive
  unfolding extend_lease extended
  extend_lease-Exclusive seconds =
      Triple-guard _ _ _ (λ q h. h)
        λ range.
          change-Exclusive env id agent token claim_token (extended env seconds) (λ j. refl)
            (λ j. refl) (λ j. refl)

  pub require_reconciliation-Exclusive :
      (reason : String)
      → Triple Exclusive
          (require_reconciliation env id agent reason token claim_token)
          (λ _. Exclusive)
          Exclusive
  unfolding require_reconciliation parked
  require_reconciliation-Exclusive reason =
      change-Exclusive env id agent token claim_token (parked env reason) (λ j. refl) (λ j. refl)
        (λ j. refl)

  pub release-Exclusive :
      (reason : String)
      → Triple Exclusive (release env id agent reason token claim_token) (λ _. Exclusive) Exclusive
  unfolding release deferred
  release-Exclusive reason =
      change-Exclusive env id agent token claim_token (deferred env reason) (λ j. refl) (λ j. refl)
        (λ j. refl)

  pub conclude-Exclusive :
      (outcome : Json)
      → Triple Exclusive
          (conclude env id agent outcome token claim_token)
          (λ _. Exclusive)
          Exclusive
  unfolding conclude done
  conclude-Exclusive outcome =
      change-Exclusive env id agent token claim_token (done env outcome) (λ j. refl) (λ j. refl)
        (λ j. refl)

pub read_lapsed-Exclusive :
    (env : Env) (id : String) → Triple Exclusive (read_lapsed env id) (λ _. Exclusive) Exclusive
unfolding read_lapsed
read_lapsed-Exclusive env id =
    Triple-bind (λ _. Exclusive) _ _ (Triple-queue_dir (λ q h. h) env)
      λ _.
        Triple-bind (λ job q. Exclusive q × Stored q id job) _ _
          (Triple-read_job (λ q h. h) id (λ job q ex st. (ex, st)))
          λ job.
            Triple-bind (λ _. Exclusive) _ _
              (Triple-expire (λ q h. h.0) env job (λ q h f. h.0)
                (λ q h l.
                  expired-Exclusive env.now _ job q h.0
                    (subst (λ x. Stored q x job)
                      (sym (job_id-expired env.now job ∙ Stored-job_id _ id job h.1)) h.1)
                    l))
              λ r.
                Triple-guard (is_reconcilable r.0.status) not_reconcilable (pure r.0) (λ q h. h)
                  λ b. Triple-pure r.0 (λ q h. h)

completed-idle : is_busy completed ≡ false
unfolding is_busy
completed-idle = refl

pub close-Exclusive :
    (env : Env) (id actor : String) (before : Job) (task : Json)
    → Triple Exclusive (close env id actor before task) (λ _. Exclusive) Exclusive
unfolding close reconciled
close-Exclusive env id actor before task =
    Triple-bind (λ _. Exclusive) _ _ (Triple-queue_dir (λ q h. h) env)
      λ _.
        Triple-bind (λ _. Exclusive) _ _ (Triple-read_job (λ q h. h) id (λ job q ex st. ex))
          λ job.
            Triple-guard _ _ _ (λ q h. h)
              λ b.
                Triple-finish (λ q h. h) env (reconciled env actor task job)
                  λ q ex. put_idle-Exclusive _ (reconciled env actor task job) q ex completed-idle
