-- ===== src/Queue/Fencing/Lapse.antt =====
-- A worker whose lease has run out.
use Prim.Native.String.{String}
use oracle_patching.Prelude.{
  ℕ, ◌≡◌, refl, ap, ◌∙◌, true, false, not, ◌&&◌, ◌||◌, Option, leb, if◌then◌else◌,
}
use oracle_patching.Prelude.Text.{is_on}
use oracle_patching.Json.{Json}
use oracle_patching.Exec.{ok, err, pure, ensure, modify, >>=-err, >>=-ok, ensure-true}
use oracle_patching.Queue.Store.{
  Job, lease_inactive, Queue, Env, Action, queue_dir, job_path, valid_job_id, read_job, write_job,
  put_job, enrolled, require_enrollment,
}
use oracle_patching.Queue.Claim.{holds, lapsed, expired, mark_lost, expire, owned}
use oracle_patching.Queue.Lease.{
  read_owned, extend_lease, require_reconciliation, defer_pending, is_result, complete,
}
use oracle_patching.Queue.Exclusion.{Stored, Stored-job_id}
use oracle_patching.Queue.Triples.{job_id-expired}

-- The checks that come before the lease pass.
pub record Admitted (env : Env) (id agent : String) (token claim_token : Option String) (job : Job)
    (q : Queue) : Type 0 where
  pub safe : env.directories_safe ≡ true
  pub valid : valid_job_id id ≡ true
  pub stored : Stored q id job
  pub enrolment : (not (is_on env.enrollment_required) || enrolled env agent token job.node) ≡ true
  pub held : holds env agent claim_token job ≡ true

-- The call raises, and the job awaits reconciliation.
abbrev pub Lost : {A : Type 0} → Env → String → Job → Action A → Queue → Type 0
Lost env id job m q = m q ≡ (err lease_inactive, put_job id (expired env.now job) q)

pub queue_dir-safe :
    (env : Env) (q : Queue) → env.directories_safe ≡ true → queue_dir env q ≡ (ok tt, q)
unfolding queue_dir
queue_dir-safe env q safe = ensure-true _ _ q safe

module _ (env : Env) (id : String) (q : Queue) (safe : env.directories_safe ≡ true)
    (valid : valid_job_id id ≡ true) where
  job_path-safe : (name : String) → name ≡ id → job_path env name q ≡ (ok tt, q)
  unfolding job_path
  job_path-safe name n =
      >>=-ok _ _ q tt q (ensure-true _ _ q (ap valid_job_id n ∙ valid)) ∙ queue_dir-safe env q safe

  pub write_job-safe :
      (job : Job) → job.job_id ≡ id → write_job env job q ≡ (ok tt, put_job id job q)
  unfolding write_job modify
  write_job-safe job n =
      >>=-ok _ _ q tt q (job_path-safe job.job_id n) ∙ ap (λ x. (ok tt, put_job x job q)) n

  mark_lost-safe :
      (job : Job)
      → job.job_id ≡ id
      → mark_lost env job q ≡ (ok (expired env.now job, true), put_job id (expired env.now job) q)
  unfolding mark_lost pure
  mark_lost-safe job named =
      >>=-ok _ _ q tt (put_job id (expired env.now job) q)
        (write_job-safe (expired env.now job) (job_id-expired env.now job ∙ named))

  expire-lapsed :
      (job : Job)
      → job.job_id ≡ id
      → lapsed env.now job ≡ true
      → expire env job q ≡ (ok (expired env.now job, true), put_job id (expired env.now job) q)
  unfolding expire
  expire-lapsed job named late =
      ap (λ b. (if b then mark_lost env job else pure (job, false)) q) late
      ∙ mark_lost-safe job named

module _ (env : Env) (id agent : String) (token claim_token : Option String) (job : Job) (q : Queue)
    (h : Admitted env id agent token claim_token job q) (late : lapsed env.now job ≡ true) where
  owned-Lost : Lost env id job (owned env job agent token claim_token) q
  unfolding owned require_enrollment ensure
  owned-Lost =
      >>=-ok _ _ q tt q (ensure-true _ _ q h.enrolment)
      ∙ >>=-ok _ _ q tt q (ensure-true _ _ q h.held)
      ∙ >>=-ok _ _ q (expired env.now job, true) (put_job id (expired env.now job) q)
          (expire-lapsed env id q h.safe h.valid job (Stored-job_id _ id job h.stored) late)

  read_owned-Lost : Lost env id job (read_owned env id agent token claim_token) q
  unfolding read_owned read_job
  read_owned-Lost =
      >>=-ok _ _ q tt q (queue_dir-safe env q h.safe)
      ∙ >>=-ok _ _ q tt q (job_path-safe env id q h.safe h.valid id refl)
      ∙ >>=-ok _ _ q job q (ap (λ r. (r, q)) h.stored)
      ∙ >>=-err _ _ q owned-Lost

  -- The holder of a claim whose lease has run out, whose other checks pass: its renewal for a length
  -- in range, its demand for reconciliation, its deferral and its completion with a result that is
  -- none or a dictionary raise `lease_inactive`, and the job awaits reconciliation.
  pub late-Lost :
      (second : Env) (between : Queue → Queue) (seconds : ℕ) (reason : String)
      (result : Option Json)
      → (leb 30 seconds && leb seconds 3600) ≡ true
      → is_result result ≡ true
      → Lost env id job (extend_lease env id agent seconds token claim_token) q
        × Lost env id job (require_reconciliation env id agent reason token claim_token) q
        × Lost env id job (defer_pending env second between id agent reason token claim_token) q
        × Lost env id job (complete env second between id agent result token claim_token) q
  unfolding extend_lease require_reconciliation defer_pending complete
  late-Lost second between seconds reason result range dict = (
    >>=-ok _ _ q tt q (ensure-true _ _ q range) ∙ >>=-err _ _ q read_owned-Lost,
    >>=-err _ _ q read_owned-Lost,
    >>=-err _ _ q read_owned-Lost,
    >>=-ok _ _ q tt q (ensure-true _ _ q dict) ∙ >>=-err _ _ q read_owned-Lost,
  )
