-- ===== src/Queue/Triples.antt =====
-- What the parts that the operations of webapp/agent_queue.py share do to a condition on the queue.
use Prim.Native.String.{String}
use oracle_patching.Prelude.{
  ℕ, ◌≡◌, refl, sym, subst, ◌∙◌, Bool, true, false, not, ◌&&◌, Option, arith, string_eq,
}
use oracle_patching.Exec.{Result, ok, err, pure, ensure}
use oracle_patching.Exec.Triple.{
  Triple, Meets, Triple-pure, Triple-if, Triple-modify, Triple-ensure, Triple-bind,
}
use oracle_patching.Queue.Store.{
  Job, QueueError, Label, Queue, Env, queue_dir, job_path, read_job, put_job, write_job,
  require_enrollment, identifier, lease_inactive, public,
}
use oracle_patching.Queue.Claim.{is_active, lapsed, expired, mark_lost, expire, holds, owned}
use oracle_patching.Queue.Lease.{read_owned, finish}
use oracle_patching.Queue.Exclusion.{Stored, Stored-job_id}

module _ {P R : Queue → Type 0} (fails : (q : Queue) → P q → R q) where
  pub Triple-queue_dir : (env : Env) → Triple P (queue_dir env) (λ _ q. P q) R
  unfolding queue_dir
  Triple-queue_dir env = Triple-ensure _ _ (λ _ q p. p) fails

  pub Triple-job_path : (env : Env) (id : String) → Triple P (job_path env id) (λ _ q. P q) R
  unfolding job_path
  Triple-job_path env id =
      Triple-bind (λ _ q. P q) _ _ (Triple-ensure _ _ (λ _ q p. p) fails)
        (λ _. Triple-queue_dir env)

  pub Triple-identifier :
      (value : String) (label : Label) → Triple P (identifier value label) (λ _ q. P q) R
  unfolding identifier
  Triple-identifier value label = Triple-ensure _ _ (λ _ q p. p) fails

  pub Triple-require_enrollment :
      (env : Env) (agent : String) (token : Option String) (node : String)
      → Triple P (require_enrollment env agent token node) (λ _ q. P q) R
  unfolding require_enrollment
  Triple-require_enrollment env agent token node = Triple-ensure _ _ (λ _ q p. p) fails

  Meets-result :
      {A : Type 0} (Q : A → Queue → Type 0) (r : Result QueueError A) (q : Queue)
      → P q
      → ((a : A) → r ≡ ok a → Q a q)
      → Meets Q R (r, q)
  Meets-result Q (ok a) q p h = h a refl
  Meets-result Q (err e) q p h = fails q p

  -- An action that reads only.
  pub Triple-reads :
      {A : Type 0} {Q : A → Queue → Type 0} (g : Queue → Result QueueError A)
      → ((q : Queue) → P q → (a : A) → g q ≡ ok a → Q a q)
      → Triple P (λ q. (g q, q)) Q R
  Triple-reads {Q = Q} g h = record { at = λ q p. Meets-result Q (g q) q p (h q p) }

  pub Triple-read_job :
      {Q : Job → Queue → Type 0} (id : String)
      → ((job : Job) (q : Queue) → P q → Stored q id job → Q job q)
      → Triple P (read_job id) Q R
  unfolding read_job
  Triple-read_job {Q = Q} id h = record { at = λ q p. Meets-result Q _ q p (λ job e. h job q p e) }

  pub Triple-write_job :
      {Q : Unit {0} → Queue → Type 0} (env : Env) (job : Job)
      → ((q : Queue) → P q → Q tt (put_job job.job_id job q))
      → Triple P (write_job env job) Q R
  unfolding write_job
  Triple-write_job env job h =
      Triple-bind (λ _ q. P q) _ _ (Triple-job_path env job.job_id) (λ _. Triple-modify _ h)

  Triple-mark_lost :
      {Q : Job × Bool → Queue → Type 0} (env : Env) (job : Job)
      → ((q : Queue)
          → P q
          → Q
              (expired env.now job, true)
              (put_job (expired env.now job).job_id (expired env.now job) q))
      → Triple P (mark_lost env job) Q R
  unfolding mark_lost
  Triple-mark_lost {Q = Q} env job lose =
      Triple-bind (λ _ q. Q (expired env.now job, true) q) _ _
        (Triple-write_job env (expired env.now job) lose) (λ _. Triple-pure _ (λ q h. h))

  pub Triple-expire :
      {Q : Job × Bool → Queue → Type 0} (env : Env) (job : Job)
      → ((q : Queue) → P q → lapsed env.now job ≡ false → Q (job, false) q)
      → ((q : Queue)
          → P q
          → lapsed env.now job ≡ true
          → Q
              (expired env.now job, true)
              (put_job (expired env.now job).job_id (expired env.now job) q))
      → Triple P (expire env job) Q R
  unfolding expire
  Triple-expire {Q = Q} env job keep lose =
      Triple-if (lapsed env.now job) (mark_lost env job) (pure (job, false))
        (λ t. Triple-mark_lost env job (λ q p. lose q p t)) (λ f. Triple-pure _ (λ q p. keep q p f))

pub job_id-expired : (now : ℕ) (job : Job) → (expired now job).job_id ≡ job.job_id
unfolding expired
job_id-expired now job = ground arith

-- The worker holds the job `id`, whose lease has not run out.
pub record Owned (env : Env) (id agent : String) (claim_token : Option String) (job : Job)
    (q : Queue) : Type 0 where
  pub stored : Stored q id job
  pub held : holds env agent claim_token job ≡ true
  pub active : is_active job.status ≡ true
  pub lasting : lapsed env.now job ≡ false

-- After `_expire`: the job is lost and only a raise can follow, or nothing has changed.
abbrev Kept : (P R : Queue → Type 0) → Env → Job → Job × Bool → Queue → Type 0
Kept P R env job (job', true) q = R q
Kept P R env job (job', false) q = P q × (job' ≡ job) × (lapsed env.now job ≡ false)

module _ {P R : Queue → Type 0} (fails : (q : Queue) → P q → R q) where
  Triple-still_active :
      (env : Env) (id agent : String) (claim_token : Option String) (job : Job) (r : Job × Bool)
      → Triple
          (Kept (λ q. P q × Stored q id job × (holds env agent claim_token job ≡ true)) R env job r)
          (ensure (not r.1 && is_active r.0.status) lease_inactive)
          (λ _ q. P q × Owned env id agent claim_token job q)
          R
  Triple-still_active env id agent claim_token job (job', true) =
      Triple-ensure _ _ (λ e q h. cc) (λ q r. r)
  Triple-still_active env id agent claim_token job (job', false) =
      Triple-ensure _ _
        (λ e q h.
          (h.0.0, record { stored = h.0.1; held = h.0.2; active = rw h.1 at e; lasting = h.2 }))
        (λ q h. fails q h.0.0)

  Triple-owned :
      (env : Env) (id : String) (job : Job) (agent : String) (token claim_token : Option String)
      → ((q : Queue)
          → P q
          → Stored q id job
          → lapsed env.now job ≡ true
          → R (put_job id (expired env.now job) q))
      → Triple
          (λ q. P q × Stored q id job)
          (owned env job agent token claim_token)
          (λ _ q. P q × Owned env id agent claim_token job q)
          R
  unfolding owned
  Triple-owned env id job agent token claim_token lapses =
      let H : Queue → Type 0 =
        λ q. P q × Stored q id job × (holds env agent claim_token job ≡ true) in
      Triple-bind (λ _ q. P q × Stored q id job) _ _
        (Triple-require_enrollment (λ q h. fails q h.0) env agent token job.node)
        λ _.
          Triple-bind (λ _. H) _ _ (Triple-ensure _ _ (λ e q h. (h.0, h.1, e)) (λ q h. fails q h.0))
            λ _.
              Triple-bind (Kept H R env job) _ _
                (Triple-expire (λ q h. fails q h.0) env job (λ q h f. (h, refl, f))
                  (λ q h t.
                    subst (λ x. R (put_job x (expired env.now job) q))
                      (sym (job_id-expired env.now job ∙ Stored-job_id _ id job h.1))
                      (lapses q h.0 h.1 t)))
                (Triple-still_active env id agent claim_token job)

  pub Triple-read_owned :
      (env : Env) (id agent : String) (token claim_token : Option String)
      → ((q : Queue) (job : Job)
          → P q
          → Stored q id job
          → lapsed env.now job ≡ true
          → R (put_job id (expired env.now job) q))
      → Triple P
          (read_owned env id agent token claim_token)
          (λ job q. P q × Owned env id agent claim_token job q)
          R
  unfolding read_owned
  Triple-read_owned env id agent token claim_token lapses =
      Triple-bind (λ _ q. P q) _ _ (Triple-queue_dir fails env)
        λ _.
          Triple-bind (λ _ q. P q) _ _ (Triple-job_path fails env id)
            λ _.
              Triple-bind (λ job q. P q × Stored q id job) _ _
                (Triple-read_job fails id (λ job q p s. (p, s)))
                λ job.
                  Triple-bind (λ _ q. P q × Owned env id agent claim_token job q) _ _
                    (Triple-owned env id job agent token claim_token
                      (λ q p s t. lapses q job p s t))
                    λ _. Triple-pure job (λ q h. h)

  pub Triple-finish :
      {Q : Job → Queue → Type 0} (env : Env) (job : Job)
      → ((q : Queue) → P q → Q (public job) (put_job job.job_id job q))
      → Triple P (finish env job) Q R
  unfolding finish
  Triple-finish {Q = Q} env job h =
      Triple-bind (λ _ q. Q (public job) q) _ _ (Triple-write_job fails env job h)
        (λ _. Triple-pure (public job) (λ q x. x))
