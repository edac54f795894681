-- ===== src/Queue/Closing.antt =====
-- What a reconciliation needs, and what a listing shows.
use Prim.Native.String.{String}
use mathlib.Core.List.{Memᴰ}
use oracle_patching.Prelude.{
  ◌≡◌, refl, ap, subst, ◌⊎◌, inl, inr, Bool, true, false, Option, none, List, [], ◌∷◌, map, select,
  mem-cases, Bool-cases,
}
use oracle_patching.Json.{Json}
use oracle_patching.Exec.{ok}
use oracle_patching.Exec.Triple.{
  Triple, Triple-pure, Triple-gets, Triple-guard, Triple-lift-then, Triple-modify-then, Triple-bind,
  Triple-weaken, Triple-ok,
}
use oracle_patching.Queue.Store.{Job, Queue, Env, public, put_job, names}
use oracle_patching.Queue.Claim.{is_reconcilable, lapsed, expired, has_status, list_jobs}
use oracle_patching.Queue.Lease.{native_task, is_terminal}
use oracle_patching.Queue.Reconcile.{reconciled, unchanged, read_lapsed, close, reconcile}
use oracle_patching.Queue.Exclusion.{Stored, Stored-job_id}
use oracle_patching.Queue.Scan.{Reads, Triple-read_all}
use oracle_patching.Queue.Triples.{
  Triple-queue_dir, Triple-job_path, Triple-identifier, Triple-read_job, Triple-expire,
  Triple-finish,
}

-- The job found at the first step, in the queue `s` that this step leaves: it awaited reconciliation,
-- or its lease had run out.
pub record Found (env : Env) (id : String) (q s : Queue) (job : Job) : Type 0 where
  pub before : Job
  pub stored : Stored q id before
  pub reconcilable : is_reconcilable job.status ≡ true
  pub left :
      ((lapsed env.now before ≡ false) × (job ≡ before) × (s ≡ q))
      ⊎ ((lapsed env.now before ≡ true)
          × (job ≡ expired env.now before)
          × (s ≡ put_job (expired env.now before).job_id (expired env.now before) q))

-- What a reconciliation that returned did.
pub record Closed (first second : Env) (between : Queue → Queue) (id actor : String) (q : Queue)
    (shown : Job) (q' : Queue) : Type 0 where
  pub job : Job
  pub middle : Queue
  pub found : Found first id q middle job
  pub task : Json
  pub verified : native_task first job ≡ ok task
  pub terminal : is_terminal task ≡ true
  pub again : Job
  pub stored : Stored (between middle) id again
  pub same_attempt : unchanged job again ≡ true
  pub shown_as : shown ≡ public (reconciled second actor task again)
  pub written : q' ≡ put_job id (reconciled second actor task again) (between middle)

-- What `_expire` found.
abbrev Expired : Env → String → Queue → Job → Job × Bool → Queue → Type 0
Expired env id q before r s =
    ((lapsed env.now before ≡ false) × (r.0 ≡ before) × (s ≡ q))
    ⊎ ((lapsed env.now before ≡ true)
        × (r.0 ≡ expired env.now before)
        × (s ≡ put_job (expired env.now before).job_id (expired env.now before) q))

module _ (first second : Env) (id : String) (q : Queue) where
  Triple-read_lapsed :
      Triple (λ s. s ≡ q) (read_lapsed first id) (λ job s. Found first id q s job) (λ s. Unit)
  unfolding read_lapsed
  Triple-read_lapsed =
      Triple-bind (λ _ s. s ≡ q) _ _ (Triple-queue_dir (λ s p. tt) first)
        λ _.
          Triple-bind (λ b s. (s ≡ q) × Stored q id b) _ _
            (Triple-read_job (λ s p. tt) id λ b s p st. (p, subst (λ x. Stored x id b) p st))
            λ b.
              Triple-bind (λ r s. Stored q id b × Expired first id q b r s) _ _
                (Triple-expire (λ s p. tt) first b (λ s p f. (p.1, inl (f, refl, p.0)))
                  (λ s p t. (
                    p.1,
                    inr (
                      t,
                      refl,
                      ap (put_job (expired first.now b).job_id (expired first.now b)) p.0,
                    ),
                  )))
                λ r.
                  Triple-guard _ _ _ (λ s p. tt)
                    λ fits.
                      Triple-pure _
                        λ s p. record { before = b; stored = p.0; reconcilable = fits; left = p.1 }

  Triple-close :
      (actor : String) (job : Job) (task : Json) (t : Queue)
      → Triple
          (λ s. s ≡ t)
          (close second id actor job task)
          (λ shown s.
            (again : Job) × Stored t id again
            × (unchanged job again ≡ true)
            × (shown ≡ public (reconciled second actor task again))
            × (s ≡ put_job id (reconciled second actor task again) t))
          (λ s. Unit)
  unfolding close reconciled
  Triple-close actor job task t =
      Triple-bind (λ _ s. s ≡ t) _ _ (Triple-queue_dir (λ s p. tt) second)
        λ _.
          Triple-bind (λ b s. (s ≡ t) × Stored t id b) _ _
            (Triple-read_job (λ s p. tt) id λ b s p st. (p, subst (λ x. Stored x id b) p st))
            λ b.
              Triple-guard _ _ _ (λ s p. tt)
                λ same.
                  Triple-finish (λ s p. tt) second _
                    λ s p. (b, p.1, same, refl, cc (Stored-job_id _ id b p.1, p.0))

-- A reconciliation that returns, whatever other processes did between its two steps: it found the job
-- awaiting reconciliation or with a lease that had run out, bin/opu-patch-plan gave a sealed task that
-- is this attempt's and has ended, and at the second step the job awaits reconciliation at the same
-- attempt and claim generation, and is completed with that task's outcome; nothing else is written.
pub reconcile-Closed :
    (first second : Env) (between : Queue → Queue) (id actor : String) (q q' : Queue) {shown : Job}
    → reconcile first second between id actor q ≡ (ok shown, q')
    → Closed first second between id actor q shown q'
reconcile-Closed first second between id actor q q' h =
    Triple-ok (Closed first second between id actor q) _ q triple refl h
  where
    triple :
        Triple
          (λ s. s ≡ q)
          (reconcile first second between id actor)
          (Closed first second between id actor q)
          (λ s. Unit)
    triple =
        unfold reconcile in
        Triple-bind (λ _ s. s ≡ q) _ _ (Triple-identifier (λ s p. tt) actor _)
          λ _.
            Triple-bind (λ _ s. s ≡ q) _ _ (Triple-job_path (λ s p. tt) first id)
              λ _.
                Triple-bind (λ job s. Found first id q s job) _ _
                  (Triple-read_lapsed first second id q)
                  λ job.
                    Triple-lift-then _ _ (λ s p. tt)
                      λ task verified.
                        Triple-guard _ _ _ (λ s p. tt)
                          λ terminal. record {
                            at = λ s found.
                                (Triple-modify-then {P = λ x. x ≡ s} (λ x. x ≡ between s) between _
                                    (λ x p. ap between p)
                                    (Triple-weaken _
                                      (Triple-close first second id q actor job task (between s))
                                      (λ x p. p)
                                      (λ shown x w. record {
                                        job = job;
                                        middle = s;
                                        found = found;
                                        task = task;
                                        verified = verified;
                                        terminal = terminal;
                                        again = w.0;
                                        stored = w.1;
                                        same_attempt = w.2;
                                        shown_as = w.3;
                                        written = w.4;
                                      })
                                      (λ x p. p))).at
                                  s refl;
                          }

mem-map-select :
    (p : Job → Bool) (jobs : List Job) (j : Job)
    → Memᴰ j (map public (select p jobs))
    → (b : Job) × Memᴰ b jobs × (p b ≡ true) × (j ≡ public b)
unfolding select
mem-map-select p [] j h = elim h [ ]
mem-map-select p (x ∷ xs) j h = elim (Bool-cases (p x)) [
  | inl t ↦ elim (mem-cases (rw t at h)) [
    | inl e ↦ (x, Memᴰ.head refl, t, e)
    | inr m ↦ let (b, mb, pb, e) = mem-map-select p xs j m in (b, Memᴰ.tail mb, pb, e)
  ]
  | inr f ↦ let (b, mb, pb, e) = mem-map-select p xs j (rw f at h) in (b, Memᴰ.tail mb, pb, e)
]

-- A listing that returns leaves the queue as it was, and shows stored jobs only, of the status asked
-- for, none with the digest of its claim token.
pub list_jobs-public :
    (env : Env) (status : Option String) (q q' : Queue) {shown : List Job}
    → list_jobs env status q ≡ (ok shown, q')
    → (q' ≡ q)
      × ((j : Job)
          → Memᴰ j shown
          → (j.claim_token_sha256 ≡ none)
            × (b : Job) × Stored q b.job_id b
            × (has_status status b.status ≡ true)
            × (j ≡ public b))
list_jobs-public env status q q' h = Triple-ok Shown _ q triple refl h
  where
    Shown : List Job → Queue → Type 0
    Shown shown s =
        (s ≡ q)
        × ((j : Job)
            → Memᴰ j shown
            → (j.claim_token_sha256 ≡ none)
              × (b : Job) × Stored q b.job_id b
              × (has_status status b.status ≡ true)
              × (j ≡ public b))

    triple : Triple (λ s. s ≡ q) (list_jobs env status) Shown (λ s. Unit)
    triple =
        unfold list_jobs public in
        Triple-bind (λ _ s. s ≡ q) _ _ (Triple-queue_dir (λ s p. tt) env)
          λ _.
            Triple-bind (λ ns s. s ≡ q) _ _ (Triple-gets names (λ s p. p))
              λ ns.
                Triple-bind (λ jobs s. (s ≡ q) × Reads s ns jobs) _ _
                  (Triple-read_all (λ s. s ≡ q) (λ s p. tt) ns)
                  λ jobs. Triple-pure _ λ s p. (
                    p.0,
                    λ j m.
                        let (b, mb, pb, e) = mem-map-select _ jobs j m in
                        (
                          ap (λ (x : Job). x.claim_token_sha256) e,
                          b,
                          subst (λ x. Stored x b.job_id b) p.0 (p.1.1 b mb),
                          pb,
                          e,
                        ),
                  )
