-- ===== src/Queue/Finding.antt =====
-- A claim finds work where there is some.
use Prim.Native.String.{String}
use mathlib.Core.List.{Memᴰ}
use oracle_patching.Prelude.{
  ℕ, ◌≡◌, refl, ap, ◌∙◌, inl, inr, true, false, not, ◌&&◌, ◌||◌, Option, none, some, List, [], ◌∷◌,
  leb, any, if◌then◌else◌, Bool-cases, ||-eq-false,
}
use oracle_patching.Prelude.Text.{codes, id_fullmatch, is_on}
use oracle_patching.Exec.{ok, pure, gets, >>=-ok, ensure-true}
use oracle_patching.Queue.Store.{
  Job, Queue, Env, valid_job_id, enrolled, require_enrollment, identifier, names, read_all, put_job,
  public,
}
use oracle_patching.Queue.Claim.{
  Claim, blocks_node, lapsed, expire, expire_all, eligible, granted, grant, claim_first, claim_from,
  claim,
}
use oracle_patching.Queue.Fencing.Lapse.{write_job-safe, queue_dir-safe}

-- A request that is well formed, of an enrolled agent where enrolment is required, to a queue whose
-- files all read, as `jobs`, with no lease to expire.
pub record Request (env : Env) (node agent : String) (lease : ℕ) (token : Option String)
    (jobs : List Job) (q : Queue) : Type 0 where
  pub safe : env.directories_safe ≡ true
  pub node_ok : id_fullmatch 127 (codes node) ≡ true
  pub agent_ok : id_fullmatch 127 (codes agent) ≡ true
  pub range : (leb 30 lease && leb lease 3600) ≡ true
  pub enrolment : (not (is_on env.enrollment_required) || enrolled env agent token node) ≡ true
  pub read : read_all (names q) q ≡ (ok jobs, q)
  pub lasting : any (lapsed env.now) jobs ≡ false
  pub valid : (job : Job) → Memᴰ job jobs → valid_job_id job.job_id ≡ true

expire-lasting :
    (env : Env) (job : Job) (q : Queue)
    → lapsed env.now job ≡ false
    → expire env job q ≡ (ok (job, false), q)
unfolding expire pure
expire-lasting env job q h =
    ap (λ b. (if b then oracle_patching.Queue.Claim.mark_lost env job else pure (job, false)) q) h

expire_all-lasting :
    (env : Env) (jobs : List Job) (q : Queue)
    → any (lapsed env.now) jobs ≡ false
    → expire_all env jobs q ≡ (ok jobs, q)
unfolding expire_all pure any
expire_all-lasting env [] q h = refl
expire_all-lasting env (job ∷ jobs) q h =
    let (first, rest) = ||-eq-false (lapsed env.now job) _ h in
    >>=-ok _ _ q (job, false) q (expire-lasting env job q first)
    ∙ >>=-ok _ _ q jobs q (expire_all-lasting env jobs q rest)

module _ (env : Env) (node agent : String) (lease : ℕ) (jobs : List Job) (q : Queue)
    (safe : env.directories_safe ≡ true) where
  grant-returns :
      (job : Job)
      → valid_job_id job.job_id ≡ true
      → (c : Claim) × (q' : Queue) × (grant env agent lease job q ≡ (ok (some c), q'))
  unfolding grant granted pure
  grant-returns job valid = (
    record { job = public (granted env agent lease job); claim_token = env.token },
    put_job job.job_id (granted env agent lease job) q,
    >>=-ok _ _ q tt (put_job job.job_id (granted env agent lease job) q)
        (write_job-safe env job.job_id q safe valid (granted env agent lease job) refl),
  )

  claim_first-returns :
      (rest : List Job)
      → ((job : Job) → Memᴰ job rest → valid_job_id job.job_id ≡ true)
      → any (eligible node jobs) rest ≡ true
      → (c : Claim) × (q' : Queue) × (claim_first env node agent lease jobs rest q
          ≡ (ok (some c), q'))
  unfolding claim_first any
  claim_first-returns [] valid h = cc
  claim_first-returns (job ∷ rest) valid h = elim (Bool-cases (eligible node jobs job)) [
    | inl t ↦ rw t (grant-returns job (valid job (Memᴰ.head refl)))
    | inr f ↦ rw f (claim_first-returns rest (λ j m. valid j (Memᴰ.tail m)) (rw f at h))
  ]

-- A claim that is well formed, of an enrolled agent where enrolment is required, to a queue whose
-- files all read and with no lease to expire: where no job under way is on the node and a job of
-- the queue is eligible, it returns a job.
pub claim-returns :
    (env : Env) (node agent : String) (lease : ℕ) (token : Option String) (jobs : List Job)
    (q : Queue)
    → Request env node agent lease token jobs q
    → any (blocks_node node) jobs ≡ false
    → any (eligible node jobs) jobs ≡ true
    → (c : Claim) × (q' : Queue) × (claim env node agent lease token q ≡ (ok (some c), q'))
unfolding claim identifier gets require_enrollment claim_from
claim-returns env node agent lease token jobs q r free some_job =
    let (c, q', h) = claim_first-returns env node agent lease jobs q r.safe jobs r.valid some_job in
    (
      c,
      q',
      >>=-ok _ _ q tt q (ensure-true _ _ q r.node_ok)
          ∙ >>=-ok _ _ q tt q (ensure-true _ _ q r.agent_ok)
          ∙ >>=-ok _ _ q tt q (ensure-true _ _ q r.range)
          ∙ >>=-ok _ _ q tt q (ensure-true _ _ q r.enrolment)
          ∙ >>=-ok _ _ q tt q (queue_dir-safe env q r.safe)
          ∙ >>=-ok _ _ q (names q) q refl
          ∙ >>=-ok _ _ q jobs q r.read
          ∙ >>=-ok _ _ q jobs q (expire_all-lasting env jobs q r.lasting)
          ∙ ap (λ b. (if b then pure none else claim_first env node agent lease jobs jobs) q) free
          ∙ h,
    )
