-- ===== src/Plan/Detached.antt =====
-- An execution that was launched on a host and left there: `_parse_executor_result` and
-- `reconcile_detached_run` of webapp/planctl.py. The calls over ssh and of bin/opu-patch-plan are
-- arguments; what they change is `S`. `read_stdout` reads the two logs and gives the first, parsed.
use oracle_patching.Prelude.{
  ℕ, String, Bool, true, false, not, ◌&&◌, ◌||◌, Option, none, some, List, [], ◌∷◌, ◌++◌, ◌==◌,
  nat_eq, string_eq, if◌then◌else◌,
}
use oracle_patching.Prelude.Text.{
  codes, strip, id_match, id_fullmatch, is_hex, after_prefix, starts_with, strip_slashes, digits,
}
use oracle_patching.Json
use oracle_patching.Json.{Json}
use oracle_patching.Exec.{Result, ok, err, Exec, pure, lift, ensure, ◌>>=◌, ◌>>◌, some_or}
use oracle_patching.Plan.Nodes.{
  PlanError, invalid_identity, host_changed, invalid_run_dir, no_outcome, outcome_contradicted,
  actor_required, call_failed, uncaught, Host, Resolved, resolve_node_host,
}

-- What an executor printed: nothing but space, no JSON, or a JSON value.
pub data Printed : Type 0 where
  blank unparsable : Printed
  printed : Json → Printed

-- `_parse_executor_result`; a value null counts as no output.
unfoldable pub parse_executor_result : (returncode : ℕ) → Printed → Option Json
parse_executor_result rc unparsable = none
parse_executor_result rc blank = none
parse_executor_result rc (printed Json.null) = none
parse_executor_result rc (printed v) = if rc == 0 then some v else none

-- The execution context that was recorded before the launch; "" where a value is not there.
pub record Launch : Type 0 where
  pub plan_id : String
  pub task_id : String
  pub node : String
  pub ssh_alias : String
  pub remote_root : String
  pub host_id : String
  pub run_dir : String
  pub actor : String

-- `_remote_run_dir(host, plan_id, task_id) + "/"`
unfoldable pub run_prefix : Host → Launch → List ℕ
unfolding codes strip_slashes
run_prefix h l =
    strip_slashes (codes h.remote_root)
    ++ (codes "/var/webapp-runs/"
        ++ (codes l.plan_id ++ (codes "/" ++ (codes l.task_id ++ codes "/"))))

unfoldable pub is_run_dir : Host → Launch → Bool
unfolding run_prefix starts_with after_prefix is_hex codes
is_run_dir h l =
    starts_with (run_prefix h l) (codes l.run_dir)
    && is_hex 32 (after_prefix (run_prefix h l) (codes l.run_dir))

unfoldable pub same_host : Resolved → Launch → Bool
same_host r l =
    r.ssh_alias == l.ssh_alias && (r.host.remote_root == l.remote_root && r.host.id == l.host_id)

-- What a poll answered: the exit status of ssh and the lines.
pub record Polled : Type 0 where
  pub returncode : ℕ
  pub lines : List String

-- The text of `rc`, where there is one.
unfoldable pub terminal_line : List String → Option String
terminal_line [] = none
terminal_line (l ∷ []) = none
terminal_line (l ∷ rc ∷ ls) = if l == "RC" then some rc else none

unfoldable pub terminal : Polled → Option String
unfolding terminal_line
terminal p = if p.returncode == 0 then terminal_line p.lines else none

-- `int(text)`, of what `echo $?` wrote
unfoldable pub exit_code : String → Result PlanError ℕ
unfolding digits codes strip
exit_code text = elim (codes (strip text)) [
  | [] ↦ err call_failed
  | c ∷ cs ↦ some_or call_failed (digits 0 (c ∷ cs))
]

pub data Inspected : Type 0 where
  still_unknown ended_failed : Inspected
  ended_succeeded : Json → Inspected

unfoldable pub judge : Option Json → Inspected
judge none = ended_failed
judge (some v) = ended_succeeded v

unfoldable pub is_status : String → Json → Bool
unfolding Json.get Json.is_str
is_status text task = Json.is_str text (Json.get "status" task)

-- `except (PlanError, remote.RemoteError, ValueError, OSError)`
unfoldable pub is_caught : PlanError → Bool
is_caught uncaught = false
is_caught _ = true

-- A refusal leaves the outcome unknown; what is not caught is raised.
unfoldable pub or_unknown :
    {S : Type 0} → Result PlanError Inspected × S → Result PlanError Inspected × S
unfolding is_caught
or_unknown (ok i, s) = (ok i, s)
or_unknown (err e, s) = if is_caught e then (ok still_unknown, s) else (err e, s)

-- A list or a `dict` is no member of a set: the test raises `TypeError`.
unfoldable pub is_hashable : Json → Bool
is_hashable (Json.arr vs) = false
is_hashable (Json.obj fs) = false
is_hashable _ = true

module _ {S : Type 0} (hosts : List Host) (poll : Resolved → String → Exec PlanError S Polled)
    (read_stdout : Resolved → String → Exec PlanError S Printed)
    (sync_plan : Resolved → String → Exec PlanError S (Unit {0}))
    (task_status : String → String → Exec PlanError S Json)
    (plan_state : String → Exec PlanError S String)
    (reconcile_plan : String → String → Exec PlanError S (Unit {0})) where
  -- The plan itself is reconciled once it has succeeded.
  unfoldable pub finish_plan : Launch → String → Exec PlanError S (Unit {0})
  unfolding id_fullmatch codes
  finish_plan l state =
      if state == "succeeded"
      then ensure (id_fullmatch 127 (codes l.actor)) actor_required
        >> reconcile_plan l.plan_id l.actor
      else pure tt

  -- With the exit status in hand.
  unfoldable pub import_result : Launch → Resolved → ℕ → Exec PlanError S Inspected
  unfolding is_status is_hashable Json.get finish_plan judge parse_executor_result
  import_result l r rc = do
    out ← read_stdout r l.run_dir
    sync_plan r l.plan_id
    verified ← task_status l.plan_id l.task_id
    ensure (is_hashable (Json.get "status" verified)) uncaught
    ensure (is_status "succeeded" verified || is_status "failed" verified) no_outcome
    ensure
        (if rc == 0 then is_status "succeeded" verified else not (is_status "succeeded" verified))
        outcome_contradicted
    state ← plan_state l.plan_id
    finish_plan l state
    pure (judge (parse_executor_result rc out))

  unfoldable pub after_poll : Launch → Resolved → Option String → Exec PlanError S Inspected
  unfolding exit_code import_result
  after_poll l r none = pure still_unknown
  after_poll l r (some text) = do rc ← lift (exit_code text); import_result l r rc

  unfoldable pub inspect_launch : Launch → Exec PlanError S Inspected
  unfolding id_match id_fullmatch codes resolve_node_host same_host is_run_dir terminal after_poll
  inspect_launch l = do
    ensure (id_match 127 (codes l.plan_id)) invalid_identity
    ensure (id_fullmatch 127 (codes l.task_id)) invalid_identity
    r ← lift (resolve_node_host hosts l.node)
    ensure (same_host r l) host_changed
    ensure (is_run_dir r.host l) invalid_run_dir
    polled ← poll r l.run_dir
    after_poll l r (terminal polled)

  unfoldable pub reconcile_detached_run : Launch → Exec PlanError S Inspected
  unfolding inspect_launch or_unknown
  reconcile_detached_run l s = or_unknown (inspect_launch l s)
