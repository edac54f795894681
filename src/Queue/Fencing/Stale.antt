-- ===== src/Queue/Fencing/Stale.antt =====
-- A worker whose claim is not the current one can do nothing to the job.
use Prim.Native.String.{String}
use oracle_patching.Prelude.{
  ℕ, ◌≡◌, ◌≢◌, refl, sym, ap, subst, ◌∙◌, ◌⊎◌, inl, inr, false, Option, some, arith, eq_iff,
  string_eq,
}
use oracle_patching.Json.{Json}
use oracle_patching.Exec.{Result, ok_inj, ok, err}
use oracle_patching.Exec.Triple.{Triple, Meets, Triple-ok, Triple-guard, Triple-ensure, Triple-bind}
use oracle_patching.Queue.Store.{Job, QueueError, Queue, Env, Action}
use oracle_patching.Queue.Claim.{Claim, holds, owned, claim, granted}
use oracle_patching.Queue.Lease.{
  read_owned, extend_lease, require_reconciliation, defer_pending, complete,
}
use oracle_patching.Queue.Exclusion.{Stored, Exclusive}
use oracle_patching.Queue.Exclusion.Claims.{Granted, Claimed, Triple-claim}
use oracle_patching.Queue.Triples.{
  Triple-queue_dir, Triple-job_path, Triple-read_job, Triple-require_enrollment,
}

-- The call raises and leaves the queue as it was.
abbrev pub Refused : {A : Type 0} → Action A → Queue → Type 0
Refused m q = (e : QueueError) × (m q ≡ (err e, q))

Meets-Refused :
    {A : Type 0} (q : Queue) (x : Result QueueError A × Queue)
    → Meets (λ _ _. ⊥) (λ s. s ≡ q) x
    → (e : QueueError) × (x ≡ (err e, q))
Meets-Refused q (ok a, s) h = absurd h
Meets-Refused q (err e, s) h = (e, cc)

Triple-Refused :
    {A : Type 0} (m : Action A) (q : Queue)
    → Triple (λ s. s ≡ q) m (λ _ _. ⊥) (λ s. s ≡ q)
    → Refused m q
Triple-Refused m q t = Meets-Refused q (m q) (t.at q refl)

module _ (id agent : String) (token claim_token : Option String) (q : Queue) (job : Job)
    (stored : Stored q id job) where
  Triple-read_stale :
      (env : Env)
      → holds env agent claim_token job ≡ false
      → Triple (λ s. s ≡ q) (read_owned env id agent token claim_token) (λ _ _. ⊥) (λ s. s ≡ q)
  unfolding read_owned owned
  Triple-read_stale env stale =
      Triple-bind (λ _ s. s ≡ q) _ _ (Triple-queue_dir (λ s p. p) env)
        λ _.
          Triple-bind (λ _ s. s ≡ q) _ _ (Triple-job_path (λ s p. p) env id)
            λ _.
              Triple-bind (λ j s. (s ≡ q) × (j ≡ job)) _ _
                (Triple-read_job (λ s p. p) id
                  (λ j s p st.
                    (p, ok_inj j job (sym st ∙ subst (λ x. Stored x id job) (sym p) stored))))
                λ j.
                  Triple-bind (λ _ _. ⊥) _ _
                    (Triple-bind (λ _ s. (s ≡ q) × (j ≡ job)) _ _
                      (Triple-require_enrollment (λ s p. p.0) env agent token j.node)
                      λ _.
                        Triple-bind (λ _ _. ⊥) _ _
                          (Triple-ensure _ _
                            (λ h s p. cc (stale, h, ap (holds env agent claim_token) p.1))
                            (λ s p. p.0))
                          (λ _. record { at = λ s x. absurd x }))
                    (λ _. record { at = λ s x. absurd x })

  -- A worker that does not hold the stored job's claim, as another agent or with another claim
  -- token: its renewal, its demand for reconciliation, its deferral and its completion raise, and
  -- leave the queue as it was.
  pub stale-Refused :
      (env second : Env) (between : Queue → Queue) (seconds : ℕ) (reason : String)
      (result : Option Json)
      → holds env agent claim_token job ≡ false
      → Refused (extend_lease env id agent seconds token claim_token) q
        × Refused (require_reconciliation env id agent reason token claim_token) q
        × Refused (defer_pending env second between id agent reason token claim_token) q
        × Refused (complete env second between id agent result token claim_token) q
  unfolding extend_lease require_reconciliation defer_pending complete
  stale-Refused env second between seconds reason result stale =
      let read = Triple-read_stale env stale in
      (
        Triple-Refused _ q (
            Triple-guard _ _ _ (λ s p. p)
              λ _. Triple-bind (λ _ _. ⊥) _ _ read (λ _. record { at = λ s x. absurd x })),
        Triple-Refused _ q (Triple-bind (λ _ _. ⊥) _ _ read (λ _. record { at = λ s x. absurd x })),
        Triple-Refused _ q (Triple-bind (λ _ _. ⊥) _ _ read (λ _. record { at = λ s x. absurd x })),
        Triple-Refused _ q (
            Triple-guard _ _ _ (λ s p. p)
              λ _. Triple-bind (λ _ _. ⊥) _ _ read (λ _. record { at = λ s x. absurd x })),
      )

-- A claim that returns a job, from a queue without two jobs under way on a node or in a plan: that
-- queue had the job stored as queued for the node; the queue that the claim leaves has it claimed by
-- the agent until the lease ends, with the next claim generation and the digest of the token
-- returned, and otherwise with the same task; every job of the plan with an earlier task is completed
-- with success; and still no node or plan has two jobs under way.
pub claim-Granted :
    (env : Env) (node agent : String) (lease : ℕ) (token : Option String) (q q' : Queue) {c : Claim}
    → Exclusive q
    → claim env node agent lease token q ≡ (ok (some c), q')
    → Exclusive q' × Granted env node agent lease c q q'
claim-Granted env node agent lease token q q' ex h =
    Triple-ok (λ c s. Exclusive s × Claimed env node agent lease q c s) _ q
      (Triple-claim env node agent lease token q) (ex, refl) h

holds-granted :
    (env other : Env) (agent worker : String) (lease : ℕ) (t : String) (job : Job)
    → (worker ≢ agent) ⊎ (other.sha256 t ≢ env.sha256 env.token)
    → holds other worker (some t) (granted env agent lease job) ≡ false
unfolding holds granted
holds-granted env other agent worker lease t job (inl n) = ground (arith, eq_iff agent worker)
holds-granted env other agent worker lease t job (inr n) =
    ground (arith, eq_iff (other.sha256 t) (env.sha256 env.token))

-- After a claim that returned a job, from a queue without two jobs under way on a node or in a
-- plan: a worker with another name, or with a claim token of another digest, is refused the
-- renewal, the demand for reconciliation, the deferral and the completion of that job, and leaves
-- the queue as it was.
pub claim-fences :
    (env : Env) (node agent : String) (lease : ℕ) (token : Option String) (q q' : Queue) {c : Claim}
    → Exclusive q
    → claim env node agent lease token q ≡ (ok (some c), q')
    → (other second : Env) (between : Queue → Queue) (worker reason t : String) (seconds : ℕ)
      (enrolment : Option String) (result : Option Json)
    → (worker ≢ agent) ⊎ (other.sha256 t ≢ env.sha256 env.token)
    → let id = c.job.job_id in
      Refused (extend_lease other id worker seconds enrolment (some t)) q'
      × Refused (require_reconciliation other id worker reason enrolment (some t)) q'
      × Refused (defer_pending other second between id worker reason enrolment (some t)) q'
      × Refused (complete other second between id worker result enrolment (some t)) q'
claim-fences env node agent lease token q q' {c} ex h other second between worker reason t seconds
      enrolment result stranger =
    let g = (claim-Granted env node agent lease token q q' ex h).1 in
    let same : g.before.job_id ≡ c.job.job_id = sym (
      ap (λ (j : Job). j.job_id) g.shown
      ∙ unfold granted oracle_patching.Queue.Store.public in refl) in
    stale-Refused c.job.job_id worker enrolment (some t) q' (granted env agent lease g.before)
      (subst (λ x. Stored q' x (granted env agent lease g.before)) same g.stored) other second
      between seconds reason result (holds-granted env other agent worker lease t g.before stranger)
