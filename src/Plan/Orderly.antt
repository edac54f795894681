-- ===== src/Plan/Orderly.antt =====
-- The tasks of a plan are executed one after the other, up to the first that fails.
use Prim.Native.String.{String}
use oracle_patching.Prelude.{
  ℕ, zero, suc, ◌≤◌, ◌≡◌, refl, ◌∙◌, Bool, true, false, not, ◌&&◌, Option, none, some, List, [],
  ◌∷◌, arith, ◌==◌, string_eq, length, any,
}
use oracle_patching.Json.{Json}
use oracle_patching.Exec.{ok, Exec}
use oracle_patching.Exec.Triple.{
  Triple, Triple-pure, Triple-if, Triple-guard, Triple-bind, Triple-keeps, Triple-ok,
}
use oracle_patching.Plan.Execute.{
  ExecuteError, Stopped, task_stopped, succeeded_or_idle, plan_succeeded, plan_state, is_failure,
  Report, execute_next_task, in_state, after_result, loop, execute_remaining_tasks,
}

-- Only the last of the results may be a failure.
unfoldable pub unbroken : (show : Json → String) → List Json → Bool
unbroken show [] = true
unbroken show (r ∷ []) = true
unbroken show (r ∷ s ∷ rs) = not (is_failure show r) && unbroken show (s ∷ rs)

unfoldable pub is_task_stop : Stopped → Bool
is_task_stop task_stopped = true
is_task_stop _ = false

pub record Orderly (show : Json → String) (n : ℕ) (results : List Json) (why : Stopped)
    : Type 0 where
  pub bounded : length results ≤ n
  pub in_turn : unbroken show results ≡ true
  pub reason : is_task_stop why ≡ any (is_failure show) results

Orderly-nil :
    (show : Json → String) (n : ℕ) (why : Stopped)
    → is_task_stop why ≡ false
    → Orderly show n [] why
unfolding unbroken any
Orderly-nil show n why h = record { bounded = omega arith; in_turn = refl; reason = h }

Orderly-cons :
    (show : Json → String) (n : ℕ) (r : Json) (rs : List Json) (why : Stopped)
    → is_failure show r ≡ false
    → Orderly show n rs why
    → Orderly show (suc n) (r ∷ rs) why
unfolding unbroken any
Orderly-cons show n r [] why f o = record {
  bounded = omega (arith, o.bounded);
  in_turn = refl;
  reason = o.reason ∙ rw f refl;
}
Orderly-cons show n r (s ∷ rs) why f o = record {
  bounded = omega (arith, o.bounded);
  in_turn = rw f o.in_turn;
  reason = o.reason ∙ rw f refl;
}

module _ {S : Type 0} (show : Json → String) (status : Exec ExecuteError S String)
    (next_task : Exec ExecuteError S (Option Json))
    (run_task : Json → Exec ExecuteError S Json) where
  Triple-any :
      {A : Type 0} (m : Exec ExecuteError S A)
      → Triple (λ s. Unit {0}) m (λ _ s. Unit {0}) (λ s. Unit {0})
  Triple-any m = Triple-keeps m (λ s p. tt)

  Triple-after_result :
      (n : ℕ) (o : Option Json) (rest : Exec ExecuteError S (List Json × Stopped))
      → Triple (λ s. Unit {0}) rest (λ d s. Orderly show n d.0 d.1) (λ s. Unit {0})
      → Triple
          (λ s. Unit {0})
          (after_result show status next_task run_task o rest)
          (λ d s. Orderly show (suc n) d.0 d.1)
          (λ s. Unit {0})
  unfolding after_result unbroken any is_task_stop
  Triple-after_result n none rest h =
      Triple-pure _ λ s p. record { bounded = omega arith; in_turn = refl; reason = refl }
  Triple-after_result n (some r) rest h =
      Triple-if (is_failure show r) _ _
        (λ t.
          Triple-pure _ λ s p. record { bounded = omega arith; in_turn = refl; reason = rw t refl })
        (λ f.
          Triple-bind (λ d s. Orderly show n d.0 d.1) _ _ h
            λ more. Triple-pure _ λ s o. Orderly-cons show n r more.0 more.1 f o)

  Triple-in_state :
      (n : ℕ) (state : String) (rest : Exec ExecuteError S (List Json × Stopped))
      → Triple (λ s. Unit {0}) rest (λ d s. Orderly show n d.0 d.1) (λ s. Unit {0})
      → Triple
          (λ s. Unit {0})
          (in_state show status next_task run_task state rest)
          (λ d s. Orderly show (suc n) d.0 d.1)
          (λ s. Unit {0})
  unfolding in_state is_task_stop
  Triple-in_state n state rest h =
      Triple-if (state == "succeeded") _ _
        (λ _. Triple-pure ([], plan_succeeded) λ s p. Orderly-nil show (suc n) plan_succeeded refl)
        λ _.
          Triple-if (not (state == "running")) _ _
            (λ _.
              Triple-pure ([], plan_state state)
                λ s p. Orderly-nil show (suc n) (plan_state state) refl)
            λ _.
              Triple-bind (λ _ s. Unit) _ _
                (Triple-any (execute_next_task show status next_task run_task))
                λ o. Triple-after_result n o rest h

  Triple-loop :
      (n : ℕ)
      → Triple
          (λ s. Unit {0})
          (loop show status next_task run_task n)
          (λ d s. Orderly show n d.0 d.1)
          (λ s. Unit {0})
  unfolding loop is_task_stop
  Triple-loop zero =
      Triple-pure ([], succeeded_or_idle) λ s p. Orderly-nil show 0 succeeded_or_idle refl
  Triple-loop (suc n) =
      Triple-bind (λ _ s. Unit) _ _ (Triple-any status)
        λ state. Triple-in_state n state _ (Triple-loop n)

  -- An execution of the remaining tasks that returns a report: at most `max_tasks` tasks were executed,
  -- which is between 1 and 500; no task was executed after one whose result is a failure; and the
  -- report says that a task stopped it exactly where some result is a failure.
  pub execute_remaining_tasks-Orderly :
      (max_tasks : ℕ) (s s' : S) {report : Report}
      → execute_remaining_tasks show status next_task run_task max_tasks s ≡ (ok report, s')
      → (1 ≤ max_tasks)
        × (max_tasks ≤ 500)
        × (report.executed_count ≡ length report.task_results)
        × Orderly show max_tasks report.task_results report.stopped_reason
  execute_remaining_tasks-Orderly max_tasks s s' h = Triple-ok Reported _ s triple tt h
    where
      Reported : Report → S → Type 0
      Reported report t =
          (1 ≤ max_tasks)
          × (max_tasks ≤ 500)
          × (report.executed_count ≡ length report.task_results)
          × Orderly show max_tasks report.task_results report.stopped_reason

      triple :
          Triple
            (λ t. Unit {0})
            (execute_remaining_tasks show status next_task run_task max_tasks)
            Reported
            (λ t. Unit {0})
      triple =
          unfold execute_remaining_tasks in
          Triple-guard _ _ _ (λ t p. tt)
            λ range.
              Triple-bind (λ d t. Orderly show max_tasks d.0 d.1) _ _ (Triple-loop max_tasks)
                λ d. record {
                  at = λ t o.
                      (Triple-bind (λ _ u. Unit) _ _ (Triple-any status)
                          λ final.
                            Triple-pure _
                              λ u p. (ground (arith, range), ground (arith, range), refl, o)).at
                        t tt;
                }
