-- ===== src/Plan/Execute.antt =====
-- `execute_next_task` and `execute_remaining_tasks` of webapp/planctl.py. What they call of
-- bin/opu-patch-plan and of the executors are arguments: `status` gives the plan's state, `next_task`
-- the next pending task, and `run_task` runs it by the fixture or over ssh; `S` is all that these
-- change.
use oracle_patching.Prelude.{
  ℕ, zero, suc, String, Bool, not, ◌&&◌, ◌||◌, Option, none, some, List, [], ◌∷◌, ◌==◌, string_eq,
  leb, length, if◌then◌else◌,
}
use oracle_patching.Prelude.Text.{codes, lower, codes_eq}
use oracle_patching.Json
use oracle_patching.Json.{Json}
use oracle_patching.Exec.{Exec, pure, raise, ensure, ◌>>=◌, ◌>>◌}

pub data ExecuteError : Type 0 where
  not_running : String → ExecuteError
  max_tasks_out_of_range tool_failed : ExecuteError

-- `stopped_reason`
pub data Stopped : Type 0 where
  succeeded_or_idle plan_succeeded no_pending_task task_stopped : Stopped
  plan_state : String → Stopped

-- `str(task_status).lower() in {"failed", "blocked", "error"}`; `show` is `str` on a value that is no
-- text.
unfoldable pub is_failure : (show : Json → String) → Json → Bool
unfolding Json.get Json.text_or codes lower codes_eq
is_failure show result =
    let word = lower (codes (Json.text_or show "" (Json.get "status" result))) in
    codes_eq word (codes "failed")
    || codes_eq word (codes "blocked")
    || codes_eq word (codes "error")

pub record Report : Type 0 where
  pub executed_count : ℕ
  pub stopped_reason : Stopped
  pub final_state : String
  pub task_results : List Json

module _ {S : Type 0} (show : Json → String) (status : Exec ExecuteError S String)
    (next_task : Exec ExecuteError S (Option Json))
    (run_task : Json → Exec ExecuteError S Json) where
  unfoldable pub run_next : Option Json → Exec ExecuteError S (Option Json)
  run_next none = pure none
  run_next (some t) = do r ← run_task t; pure (some r)

  unfoldable pub run_in_state : String → Exec ExecuteError S (Option Json)
  unfolding run_next
  run_in_state state =
      if state == "succeeded"
      then pure none
      else if not (state == "running")
      then raise (not_running state)
      else next_task >>= run_next

  unfoldable pub execute_next_task : Exec ExecuteError S (Option Json)
  unfolding run_in_state
  execute_next_task = status >>= run_in_state

  -- The rest of the loop after a result.
  unfoldable pub after_result :
      Option Json
      → Exec ExecuteError S (List Json × Stopped)
      → Exec ExecuteError S (List Json × Stopped)
  unfolding is_failure
  after_result none rest = pure ([], no_pending_task)
  after_result (some r) rest =
      if is_failure show r
      then pure (r ∷ [], task_stopped)
      else (do more ← rest; pure (r ∷ more.0, more.1))

  unfoldable pub in_state :
      String → Exec ExecuteError S (List Json × Stopped) → Exec ExecuteError S (List Json × Stopped)
  unfolding execute_next_task after_result
  in_state state rest =
      if state == "succeeded"
      then pure ([], plan_succeeded)
      else if not (state == "running")
      then pure ([], plan_state state)
      else execute_next_task >>= λ result. after_result result rest

  -- The loop: the results in their order, and why it ended.
  unfoldable pub loop : ℕ → Exec ExecuteError S (List Json × Stopped)
  unfolding in_state
  loop zero = pure ([], succeeded_or_idle)
  loop (suc n) = let rest = loop n in status >>= λ state. in_state state rest

  unfoldable pub execute_remaining_tasks : ℕ → Exec ExecuteError S Report
  unfolding loop
  execute_remaining_tasks max_tasks = do
    ensure (leb 1 max_tasks && leb max_tasks 500) max_tasks_out_of_range
    done ← loop max_tasks
    final ← status
    pure (record {
      executed_count = length done.0;
      stopped_reason = done.1;
      final_state = final;
      task_results = done.0;
    })
