-- ===== src/Queue/Attempts.antt =====
-- What a publication does with a task that is, or is not, in the queue already.
use Prim.Native.String.{String}
use oracle_patching.Prelude.{
  ℕ, ◌+◌, ◌≡◌, refl, ap, subst, Bool, true, false, Option, none, some, arith, ◌==◌, nat_eq,
  string_eq, if◌then◌else◌,
}
use oracle_patching.Prelude.Dict
use oracle_patching.Json.{Json}
use oracle_patching.Exec.{Result, ok, err}
use oracle_patching.Exec.Triple.{
  Triple, Triple-pure, Triple-if, Triple-gets, Triple-weaken, Triple-guard, Triple-lift-then,
  Triple-modify-then, Triple-bind, Triple-ok,
}
use oracle_patching.Queue.Store.{Job, Queue, QueueError, Env, read_file, public, put_job}
use oracle_patching.Queue.Claim.{is_completed}
use oracle_patching.Queue.Publish.{
  or_empty, retry_count, as_attempt, exists, as_some, previous, same_binding, archived, add_archive,
  new_job, create, retry, republish, publish_over, publish_task,
}
use oracle_patching.Queue.Exclusion.{Stored}
use oracle_patching.Queue.Triples.{
  Triple-queue_dir, Triple-job_path, Triple-identifier, Triple-write_job, Triple-reads,
}

-- The next attempt of the completed job `old`.
abbrev pub next_attempt : Job → Job → Job
next_attempt job old = record job { claim_generation = old.claim_generation }

-- What a publication of `job` that returned did.
pub data Published (job : Job) (q : Queue) (shown : Job) (q' : Queue) : Type 0 where
  -- the task was not in the queue
  made :
      exists (Dict.get job.job_id q.jobs) ≡ false
      → shown ≡ public job
      → q' ≡ put_job job.job_id job q
      → Published job q shown q'
  -- this attempt of it was: nothing is written
  kept :
      (old : Job)
      → Stored q job.job_id old
      → same_binding job.plan_id job.task_id job.node job.adapter old ≡ true
      → old.attempt ≡ job.attempt
      → shown ≡ public old
      → q' ≡ q
      → Published job q shown q'
  -- the attempt before it was, and is completed: it goes to the history, where no archive of that
  -- attempt is
  retried :
      (old : Job)
      → Stored q job.job_id old
      → same_binding job.plan_id job.task_id job.node job.adapter old ≡ true
      → is_completed old.status ≡ true
      → job.attempt ≡ old.attempt + 1
      → archived job.job_id old.attempt q.history ≡ false
      → shown ≡ public (next_attempt job old)
      → q' ≡ put_job job.job_id (next_attempt job old) (add_archive job.job_id old q)
      → Published job q shown q'

-- What `previous` found.
abbrev Before : Job → Queue → Option Job → Type 0
Before job q none = exists (Dict.get job.job_id q.jobs) ≡ false
Before job q (some old) = Stored q job.job_id old

module _ (env : Env) (job : Job) (q : Queue) where
  Triple-create :
      {P : Queue → Type 0} (made_job : Job) (Q : Job → Queue → Type 0)
      → ((s : Queue) → P s → Q (public made_job) (put_job made_job.job_id made_job s))
      → Triple P (create env made_job) Q (λ s. Unit)
  unfolding create
  Triple-create made_job Q h =
      Triple-bind (λ _ s. Q (public made_job) s) _ _ (Triple-write_job (λ s p. tt) env made_job h)
        λ _. Triple-pure (public made_job) (λ s p. p)

  Triple-retry :
      (old : Job)
      → Stored q job.job_id old
      → same_binding job.plan_id job.task_id job.node job.adapter old ≡ true
      → Triple (λ s. s ≡ q) (retry env job old) (Published job q) (λ s. Unit)
  unfolding retry
  Triple-retry old stored same =
      Triple-guard _ _ _ (λ s p. tt)
        λ next.
          Triple-bind (λ taken s. (s ≡ q) × (taken ≡ archived job.job_id old.attempt q.history)) _ _
            (Triple-gets _
              (λ s p. (p, ap (λ (x : Queue). archived job.job_id old.attempt x.history) p)))
            λ taken.
              Triple-guard _ _ _ (λ s p. tt)
                λ fresh.
                  Triple-modify-then
                    (λ s.
                      (s ≡ add_archive job.job_id old q)
                      × (archived job.job_id old.attempt q.history ≡ false))
                    _ _ (λ s p. (ap (add_archive job.job_id old) p.0, ground (arith, p.1, fresh)))
                    (Triple-create (next_attempt job old) (Published job q) λ s p.
                      retried old stored same (ground (arith, next)) (ground (arith, next)) p.1 refl
                        (ap (put_job job.job_id (next_attempt job old)) p.0))

  Triple-publish_over :
      (old : Option Job)
      → Before job q old
      → Triple (λ s. s ≡ q) (publish_over env job old) (Published job q) (λ s. Unit)
  unfolding publish_over republish
  Triple-publish_over none absent =
      Triple-create job (Published job q) λ s p. made absent refl (ap (put_job job.job_id job) p)
  Triple-publish_over (some old) stored =
      Triple-guard _ _ _ (λ s p. tt)
        λ same.
          Triple-if (old.attempt == job.attempt) _ _
            (λ e. Triple-pure _ (λ s p. kept old stored same (ground (arith, e)) refl p))
            (λ n. Triple-retry old stored same)

as_some-Before :
    (job : Job) (q : Queue) (old : Option Job)
    → (if exists (Dict.get job.job_id q.jobs)
        then as_some (read_file job.job_id (Dict.get job.job_id q.jobs))
        else ok none)
      ≡ ok old
    → Before job q old
as_some-Before job q none h =
    go (exists (Dict.get job.job_id q.jobs)) (read_file job.job_id (Dict.get job.job_id q.jobs)) h
  where
    go :
        (b : Bool) (r : Result QueueError Job)
        → (if b then as_some r else ok none) ≡ ok none
        → b ≡ false
    go true (ok x) h = cc
    go true (err x) h = cc
    go false r h = refl
as_some-Before job q (some old) h =
    go (exists (Dict.get job.job_id q.jobs)) (read_file job.job_id (Dict.get job.job_id q.jobs)) h
  where
    go :
        (b : Bool) (r : Result QueueError Job)
        → (if b then as_some r else ok none) ≡ ok (some old)
        → r ≡ ok old
    go true (ok x) h = cc
    go true (err x) h = cc
    go false r h = cc

-- A publication that returns, of a task whose retry generation is `attempt`: it made the job where
-- the task was not in the queue, or changed nothing where this attempt of the same binding was, or
-- put the next attempt in the place of a completed one, which went to the history where no archive
-- of it was.
pub publish_task-Published :
    (env : Env) (plan_id task_id node adapter : String) (payload : Json) (q q' : Queue)
    {shown : Job}
    → publish_task env plan_id task_id node adapter payload q ≡ (ok shown, q')
    → (attempt : ℕ) × (as_attempt (retry_count (or_empty payload)) ≡ ok attempt)
      × Published (new_job env plan_id task_id node adapter attempt 0 (or_empty payload)) q shown q'
publish_task-Published env plan_id task_id node adapter payload q q' h =
    Triple-ok Done _ q triple refl h
  where
    Done : Job → Queue → Type 0
    Done shown s =
        (attempt : ℕ) × (as_attempt (retry_count (or_empty payload)) ≡ ok attempt)
        × Published (new_job env plan_id task_id node adapter attempt 0 (or_empty payload)) q shown
            s

    triple :
        Triple (λ s. s ≡ q) (publish_task env plan_id task_id node adapter payload) Done (λ s. Unit)
    triple =
        unfold publish_task previous new_job in
        Triple-bind (λ _ s. s ≡ q) _ _ (Triple-identifier (λ s p. tt) plan_id _)
          λ _.
            Triple-bind (λ _ s. s ≡ q) _ _ (Triple-identifier (λ s p. tt) task_id _)
              λ _.
                Triple-bind (λ _ s. s ≡ q) _ _ (Triple-identifier (λ s p. tt) node _)
                  λ _.
                    Triple-guard _ _ _ (λ s p. tt)
                      λ _.
                        Triple-guard _ _ _ (λ s p. tt)
                          λ _.
                            Triple-lift-then _ _ (λ s p. tt)
                              λ attempt given.
                                let job =
                                  new_job env plan_id task_id node adapter attempt 0
                                    (or_empty payload) in
                                Triple-bind (λ _ s. s ≡ q) _ _ (Triple-job_path (λ s p. tt) env _)
                                  λ _.
                                    Triple-bind (λ _ s. s ≡ q) _ _
                                      (Triple-queue_dir (λ s p. tt) env)
                                      λ _.
                                        Triple-bind (λ old s. (s ≡ q) × Before job q old) _ _
                                          (Triple-reads (λ s p. tt) _
                                            λ s p old e. (
                                              p,
                                              subst (λ x. Before job x old) p
                                                  (as_some-Before job s old e),
                                            ))
                                          λ old. record {
                                            at = λ s p.
                                                (Triple-weaken _
                                                    (Triple-publish_over env job q old p.1)
                                                    (λ s p. p) (λ shown s h. (attempt, given, h))
                                                    (λ s h. h)).at
                                                  s p.0;
                                          }
