-- ===== src/Runner/Work.antt =====
-- The start of a run and its worker thread: `start_run`, `log` and `set_execution_context` of
-- webapp/pipeline_runner.py.
use oracle_patching.Prelude.{
  ℕ, String, Bool, true, false, not, ◌&&◌, none, some, List, [], ◌∷◌, ◌++◌, ◌==◌, string_eq,
  if◌then◌else◌,
}
use oracle_patching.Prelude.Dict
use oracle_patching.Json
use oracle_patching.Json.{Json}
use oracle_patching.Exec.{pure, lift, modify, ◌>>=◌, ◌>>◌}
use oracle_patching.Runner.Record.{
  Action, Engine, Owner, Run, active_run_id, claim_key, failed, is_unresolved, last_lines, new_run,
  running, save, succeeded, unknown, unless_active,
}

-- The part of `start_run` under the locks; `run_id` is the identifier that `uuid4` gave.
unfoldable pub start_run : (run_id kind key : String) → ℕ → Owner → Action Run
unfolding active_run_id unless_active new_run save claim_key
start_run run_id kind key now owner = do
  existing ← (λ e. lift (active_run_id key e) e)
  lift (unless_active existing)
  modify (save (new_run run_id kind key now owner))
  modify (claim_key key run_id)
  pure (new_run run_id kind key now owner)

-- `if … _ACTIVE_KEYS.get(key) == run_id: _ACTIVE_KEYS.pop(key)`
unfoldable pub drop_key : String → List (String × String) → List (String × String)
drop_key key [] = []
drop_key key ((k, id) ∷ ks) =
    let rest = drop_key key ks in if k == key then rest else (k, id) ∷ rest

unfoldable pub release_key : Run → Engine → Engine
unfolding is_unresolved Dict.get drop_key
release_key r e =
    let mine : Bool = elim (Dict.get r.key e.active) [ none ↦ false | some id ↦ id == r.run_id ] in
    if not (is_unresolved r.status) && mine
    then record e { active = drop_key r.key e.active }
    else e

-- The worker takes up its run.
unfoldable pub begin : ℕ → Run → Engine → Engine
unfolding save
begin now r e = save (record r { status = running; started_at = some now }) e

-- `RunRecord.log`
unfoldable pub log : String → Run → Engine → Engine
unfolding last_lines save
log line r e = save (record r { log_lines = last_lines 500 (r.log_lines ++ (line ∷ [])) }) e

unfoldable pub update : Json.Fields → Json.Fields → Json.Fields
unfolding Json.set_field
update Json.end context = context
update (Json.field k v fs) context = update fs (Json.set_field k v context)

unfoldable pub set_execution_context : Json.Fields → Run → Engine → Engine
unfolding update save
set_execution_context values r e = save (record r { context = update values r.context }) e

-- How `fn(record)` ended: with its result, or with the error that `to_json` made of the exception.
pub data Outcome : Type 0 where
  returned raised : Json → Outcome

unfoldable pub is_set : String → Run → Bool
unfolding Json.get Json.truthy
is_set name r = Json.truthy (Json.get name (Json.obj r.context))

unfoldable pub ended : ℕ → Outcome → Run → Run
unfolding is_set
ended now (returned v) r = record r { result = v; status = succeeded; finished_at = some now }
ended now (raised v) r = record r {
  error = v;
  status =
      if is_set "detached_execution" r && not (is_set "detached_terminal" r)
      then unknown
      else failed;
  finished_at = some now;
}

-- The rest of the worker; `written` is whether `_persist` could write.
unfoldable pub settle : (written : Bool) → ℕ → Outcome → Run → Engine → Engine
unfolding ended save release_key
settle true now outcome r e = release_key (ended now outcome r) (save (ended now outcome r) e)
settle false now outcome r e =
    let lost = record (ended now outcome r) { status = unknown } in
    release_key lost (record e { runs = Dict.put r.run_id lost e.runs })

-- The thread could not be started.
unfoldable pub abandon : Json → Run → Engine → Engine
unfolding save drop_key
abandon message r e =
    let e' = save (record r { status = failed; error = message }) e in
    record e' { active = drop_key r.key e'.active }
