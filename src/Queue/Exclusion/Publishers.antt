-- ===== src/Queue/Exclusion/Publishers.antt =====
-- Publishing a task, or a retry of one, keeps the exclusion.
use Prim.Native.String.{String}
use oracle_patching.Prelude.{◌+◌, ◌≡◌, refl, false, ◌&&◌, Option, none, some, nat_eq, ◌==◌}
use oracle_patching.Json.{Json}
use oracle_patching.Exec.{pure, gets}
use oracle_patching.Exec.Triple.{
  Triple, Triple-pure, Triple-guard, Triple-gets, Triple-if, Triple-lift-then, Triple-modify-then,
  Triple-bind,
}
use oracle_patching.Queue.Store.{queued, Job, Queue, Env, public}
use oracle_patching.Queue.Claim.{is_busy, is_completed}
use oracle_patching.Queue.Publish.{
  job_name, or_empty, new_job, previous, add_archive, archived, same_binding, create, retry,
  republish, publish_over, publish_task,
}
use oracle_patching.Queue.Exclusion.{Exclusive, put_idle-Exclusive}
use oracle_patching.Queue.Triples.{
  Triple-queue_dir, Triple-job_path, Triple-identifier, Triple-write_job, Triple-reads,
}

previous-Exclusive : (id : String) → Triple Exclusive (previous id) (λ _. Exclusive) Exclusive
unfolding previous
previous-Exclusive id = Triple-reads (λ q h. h) (λ q. (previous id q).0) (λ q ex o e. ex)

-- The archive holds none of the jobs that count.
add_archive-Exclusive :
    (id : String) (old : Job) (q : Queue) → Exclusive q → Exclusive (add_archive id old q)
unfolding add_archive
add_archive-Exclusive id old q ex = record { unique = ex.unique }

create-Exclusive :
    (env : Env) (job : Job)
    → is_busy job.status ≡ false
    → Triple Exclusive (create env job) (λ _. Exclusive) Exclusive
unfolding create
create-Exclusive env job idle =
    Triple-bind (λ _. Exclusive) _ _
      (Triple-write_job (λ q h. h) env job (λ q ex. put_idle-Exclusive job.job_id job q ex idle))
      λ _. Triple-pure (public job) (λ q h. h)

retry-Exclusive :
    (env : Env) (job old : Job)
    → is_busy job.status ≡ false
    → Triple Exclusive (retry env job old) (λ _. Exclusive) Exclusive
unfolding retry
retry-Exclusive env job old idle =
    Triple-guard (is_completed old.status && job.attempt == old.attempt + 1) _ _ (λ q h. h)
      λ ended.
        Triple-bind (λ _. Exclusive) (gets (λ q. archived job.job_id old.attempt q.history)) _
          (Triple-gets _ (λ q h. h))
          λ taken.
            Triple-guard _ _ _ (λ q h. h)
              λ free.
                Triple-modify-then Exclusive (add_archive job.job_id old) _
                  (add_archive-Exclusive job.job_id old)
                  (create-Exclusive env (record job { claim_generation = old.claim_generation })
                    idle)

republish-Exclusive :
    (env : Env) (job old : Job)
    → is_busy job.status ≡ false
    → Triple Exclusive (republish env job old) (λ _. Exclusive) Exclusive
unfolding republish
republish-Exclusive env job old idle =
    Triple-guard (same_binding job.plan_id job.task_id job.node job.adapter old) _ _ (λ q h. h)
      λ bound.
        Triple-if (old.attempt == job.attempt) (pure (public old)) (retry env job old)
          (λ e. Triple-pure (public old) (λ q h. h)) (λ e. retry-Exclusive env job old idle)

publish_over-Exclusive :
    (env : Env) (job : Job) (old : Option Job)
    → is_busy job.status ≡ false
    → Triple Exclusive (publish_over env job old) (λ _. Exclusive) Exclusive
unfolding publish_over
publish_over-Exclusive env job none idle = create-Exclusive env job idle
publish_over-Exclusive env job (some old) idle = republish-Exclusive env job old idle

queued-idle : is_busy queued ≡ false
unfolding is_busy
queued-idle = refl

pub publish_task-Exclusive :
    (env : Env) (plan_id task_id node adapter : String) (payload : Json)
    → Triple Exclusive
        (publish_task env plan_id task_id node adapter payload)
        (λ _. Exclusive)
        Exclusive
unfolding publish_task new_job
publish_task-Exclusive env plan_id task_id node adapter payload =
    Triple-bind (λ _. Exclusive) _ _ (Triple-identifier (λ q h. h) plan_id _)
      λ _.
        Triple-bind (λ _. Exclusive) _ _ (Triple-identifier (λ q h. h) task_id _)
          λ _.
            Triple-bind (λ _. Exclusive) _ _ (Triple-identifier (λ q h. h) node _)
              λ _.
                Triple-guard _ _ _ (λ q h. h)
                  λ supported.
                    Triple-guard _ _ _ (λ q h. h)
                      λ objects.
                        Triple-lift-then _ _ (λ q h. h)
                          λ attempt e.
                            Triple-bind (λ _. Exclusive) _ _
                              (Triple-job_path (λ q h. h) env (job_name plan_id task_id))
                              λ _.
                                Triple-bind (λ _. Exclusive) _ _ (Triple-queue_dir (λ q h. h) env)
                                  λ _.
                                    Triple-bind (λ _. Exclusive) _ _
                                      (previous-Exclusive (job_name plan_id task_id))
                                      λ old.
                                        publish_over-Exclusive env
                                          (new_job env plan_id task_id node adapter attempt 0
                                            (or_empty payload))
                                          old queued-idle
