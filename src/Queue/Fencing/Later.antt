-- ===== src/Queue/Fencing/Later.antt =====
-- A deferral and a completion, which take the lock twice: the worker holds the job both times.
use Prim.Native.String.{String}
use oracle_patching.Prelude.{◌≡◌, ◌≢◌, refl, ap, subst, true, Option, arith, eq_iff}
use oracle_patching.Json
use oracle_patching.Json.{Json}
use oracle_patching.Exec.{Result, ok, err, modify, ◌>>=◌, ◌>>◌}
use oracle_patching.Exec.Triple.{
  Triple, Triple-with, Triple-weaken, Triple-guard, Triple-lift-then, Triple-modify-then,
  Triple-bind, Triple-ok,
}
use oracle_patching.Queue.Store.{Job, QueueError, Queue, Env, known}
use oracle_patching.Queue.Lease.{
  native_task, status_is, read_owned, finish, deferred, release, defer_pending, is_terminal,
  sealed_result, given, outcome_of, done, conclude, complete,
}
use oracle_patching.Queue.Triples.{Owned, Triple-read_owned}
use oracle_patching.Queue.Fencing.{
  Changed, Triple-change, Wrote, Changed-Wrote, Requeued, deferred-Requeued,
}

-- What a call of two steps did: the worker held the job at the first, `F` of that job was known
-- then, and at the second, after `between`, it still held the job and changed it.
abbrev pub ChangedLater :
    (first second : Env)
    → (Queue → Queue)
    → String
    → String
    → Option String
    → (Job → Type 0)
    → (Job → Job)
    → Queue
    → Job
    → Queue
    → Type 0
ChangedLater first second between id agent claim_token F f q shown q' =
    ((job : Job) × Owned first id agent claim_token job q × F job)
    × Changed second id agent claim_token f (between q) shown q'

abbrev pub Verified : Env → String → Job → Type 0
Verified env text job =
    (task : Json) × (native_task env job ≡ ok task) × (status_is text task ≡ true)

module _ (first second : Env) (between : Queue → Queue) (id agent : String)
    (token claim_token : Option String) (q : Queue) where
  -- The second step, after the others had their turn.
  Triple-later :
      {P : Queue → Type 0} (f : Job → Job)
      → ((job : Job) → (f job).job_id ≡ job.job_id)
      → ((s : Queue) → P s → s ≡ q)
      → Triple P
          (modify between
            >> (read_owned second id agent token claim_token >>= λ job. finish second (f job)))
          (Changed second id agent claim_token f (between q))
          (λ s. Unit)
  Triple-later f names at_q =
      Triple-modify-then (λ s. s ≡ between q) between _ (λ s p. ap between (at_q s p))
        (Triple-change second id agent token claim_token f names (between q) (λ s p. p))

  Triple-first :
      Triple
        (λ s. s ≡ q)
        (read_owned first id agent token claim_token)
        (λ job s. (s ≡ q) × Owned first id agent claim_token job q)
        (λ s. Unit)
  Triple-first =
      Triple-weaken _
        (Triple-read_owned (λ s h. tt) first id agent token claim_token (λ s job h st l. tt))
        (λ s p. p) (λ job s p. (p.0, subst (Owned first id agent claim_token job) p.0 p.1))
        (λ s p. p)

  Triple-defer_pending :
      (reason : String)
      → Triple
          (λ s. s ≡ q)
          (defer_pending first second between id agent reason token claim_token)
          (ChangedLater first second between id agent claim_token
            (Verified first "pending")
            (deferred second reason)
            q)
          (λ s. Unit)
  unfolding defer_pending release deferred
  Triple-defer_pending reason =
      Triple-bind (λ job s. (s ≡ q) × Owned first id agent claim_token job q) _ _ Triple-first
        λ job.
          Triple-lift-then _ _ (λ s p. tt)
            λ task verified.
              Triple-guard _ _ _ (λ s p. tt)
                λ pending.
                  Triple-with
                    (Changed second id agent claim_token (deferred second reason) (between q)) _
                    (λ s p. (job, p.1, (task, verified, pending)))
                    (Triple-later (deferred second reason) (λ j. refl) (λ s p. p.0))

  Triple-complete :
      (given_result : Option Json)
      → Triple
          (λ s. s ≡ q)
          (complete first second between id agent given_result token claim_token)
          (λ shown q'.
            (outcome : Json) × ChangedLater first second between id agent claim_token
              (λ job. outcome_of first job (given given_result) ≡ ok outcome)
              (done second outcome)
              q
              shown
              q')
          (λ s. Unit)
  unfolding complete conclude done
  Triple-complete given_result =
      Triple-guard _ _ _ (λ s p. tt)
        λ is_dict.
          Triple-bind (λ job s. (s ≡ q) × Owned first id agent claim_token job q) _ _ Triple-first
            λ job.
              Triple-lift-then _ _ (λ s p. tt)
                λ outcome known.
                  Triple-weaken _
                    (Triple-with
                      (Changed second id agent claim_token (done second outcome) (between q)) _
                      (λ s p. (job, p.1, known))
                      (Triple-later (done second outcome) (λ j. refl) (λ s p. p.0)))
                    (λ s p. p) (λ j s c. (outcome, c)) (λ s p. p)

-- A deferral that returns, whatever other processes did between its two steps: the worker held the
-- job at both, the sealed task was verified as pending at the first, and the queue that the second
-- found now has the job back among the queued, with the reason given and without worker, lease or
-- claim token, so that it holds back no claim of its node and no worker may act for it; the rest of
-- the job and the rest of the queue are as they were.
pub defer_pending-ChangedLater :
    (first second : Env) (between : Queue → Queue) (id agent reason : String)
    (token claim_token : Option String) (q q' : Queue) {shown : Job}
    → defer_pending first second between id agent reason token claim_token q ≡ (ok shown, q')
    → ((job : Job) × Owned first id agent claim_token job q × Verified first "pending" job)
      × Wrote second id agent claim_token (Requeued reason) (between q) shown q'
unfolding deferred known
defer_pending-ChangedLater first second between id agent reason token claim_token q q' {shown} h =
    let (held, changed) =
      Triple-ok
        (ChangedLater first second between id agent claim_token (Verified first "pending")
          (deferred second reason) q)
        _ q (Triple-defer_pending first second between id agent token claim_token q reason) refl
        h in
    (
      held,
      Changed-Wrote second id agent claim_token _ (deferred second reason) (between q) shown q'
          (λ job. refl) (λ job. refl) (λ job owned. deferred-Requeued second reason job) changed,
    )

-- The outcome recorded for a job: as given in test mode, and otherwise read from a sealed task that
-- was verified to be this attempt's and to have ended.
abbrev pub Sealed : Env → Json.Fields → Json → Job → Type 0
Sealed env fs outcome job =
    (task : Json) × (native_task env job ≡ ok task)
    × (is_terminal task ≡ true)
    × (outcome ≡ sealed_result fs task)

outcome_of-Sealed :
    (env : Env) (job : Job) (fs : Json.Fields) (r : Result QueueError Json) (outcome : Json)
    → native_task env job ≡ r
    → env.test_mode ≢ "1"
    → outcome_of env job fs ≡ ok outcome
    → Sealed env fs outcome job
unfolding outcome_of
outcome_of-Sealed env job fs (err e) outcome r live h =
    absurd (ground (arith, eq_iff env.test_mode "1"))
outcome_of-Sealed env job fs (ok task) outcome r live h =
    (task, r, ground (arith, eq_iff env.test_mode "1"), ground (arith, eq_iff env.test_mode "1"))

-- A completion that returns outside test mode, whatever other processes did between its two steps:
-- the worker held the job at both, bin/opu-patch-plan gave a sealed task that is this attempt's and
-- has ended, and the queue that the second step found now has the completed job, with that task's
-- outcome, in its place and is otherwise as it was.
pub complete-ChangedLater :
    (first second : Env) (between : Queue → Queue) (id agent : String) (result : Option Json)
    (token claim_token : Option String) (q q' : Queue) {shown : Job}
    → first.test_mode ≢ "1"
    → complete first second between id agent result token claim_token q ≡ (ok shown, q')
    → (outcome : Json) × ChangedLater first second between id agent claim_token
        (Sealed first (given result) outcome)
        (done second outcome)
        q
        shown
        q'
complete-ChangedLater first second between id agent result token claim_token q q' live h =
    let (outcome, all) =
      Triple-ok
        (λ shown q'.
          (outcome : Json) × ChangedLater first second between id agent claim_token
            (λ job. outcome_of first job (given result) ≡ ok outcome) (done second outcome) q shown
            q')
        _ q (Triple-complete first second between id agent token claim_token q result) refl h in
    (
      outcome,
      (
        (
          all.0.0,
          all.0.1,
          outcome_of-Sealed first all.0.0 (given result) (native_task first all.0.0) outcome refl
              live all.0.2,
        ),
        all.1,
      ),
    )
