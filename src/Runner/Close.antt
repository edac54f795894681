-- ===== src/Runner/Close.antt =====
-- A run found again: `_load_persisted`, `get_run`, `reconcile_run` of webapp/pipeline_runner.py, and the
-- restart of a controller.
use oracle_patching.Prelude.{
  ℕ, String, Bool, true, false, not, ◌&&◌, Option, none, some, [], ◌==◌, string_eq, if◌then◌else◌,
}
use oracle_patching.Prelude.Text.{codes, strip, is_hex}
use oracle_patching.Prelude.Dict
use oracle_patching.Json.{Json}
use oracle_patching.Exec.{Result, ok, err, pure, lift, modify, ensure, ◌>>=◌, ◌>>◌, some_or}
use oracle_patching.Runner.Record.{
  Action, Engine, Owner, Run, RunError, RunStatus, actor_required, failed, invalid_outcome,
  is_unresolved, not_unknown, reconciling, save, saved, succeeded, to_json, unconfirmed, unknown,
  unknown_run, unreadable,
}
use oracle_patching.Runner.Work.{is_set, release_key}

-- A `run.json` as a controller with the identity `process` reads it.
unfoldable pub loaded : (process : String) → Json → Run → Run
unfolding is_unresolved
loaded process lost r =
    if is_unresolved r.status && not (r.owner.process == process)
    then record r { status = unknown; error = lost }
    else r

unfoldable pub load_persisted : (process : String) → Json → String → Engine → Option Run
unfolding is_hex codes Dict.get loaded
load_persisted process lost id e =
    if is_hex 12 (codes id)
    then elim (Dict.get id e.disk) [
      | none ↦ none
      | some unreadable ↦ none
      | some (saved r) ↦ some (record (loaded process lost r) { run_id = id })
    ]
    else none

unfoldable pub cache : String → Option Run → Engine → Engine
cache id none e = e
cache id (some r) e = record e { runs = Dict.put id r e.runs }

-- `get_run`: of the memory, or else of the disk and then kept in memory
unfoldable pub get_run : (process : String) → Json → String → Action (Option Run)
unfolding Dict.get load_persisted cache
get_run process lost id e = elim (Dict.get id e.runs) [
  | some r ↦ (ok (some r), e)
  | none ↦ (ok (load_persisted process lost id e), cache id (load_persisted process lost id e) e)
]

unfoldable pub is_closable : RunStatus → Bool
is_closable unknown = true
is_closable reconciling = true
is_closable _ = false

-- What `inspect` found on the managed host, or what the operator confirmed.
pub record Verdict : Type 0 where
  pub status : RunStatus
  pub result : Json
  pub error : Json

unfoldable pub is_verdict : RunStatus → Bool
is_verdict succeeded = true
is_verdict failed = true
is_verdict unknown = true
is_verdict _ = false

-- An operator's acknowledgement: `confirm_no_active_execution` and `note`.
pub record Acknowledgement : Type 0 where
  pub confirmed : Bool
  pub note : Option String

unfoldable pub has_note : Option String → Bool
unfolding strip
has_note none = false
has_note (some n) = if strip n == "" then false else true

-- `closed` is the message of a run that is closed by hand, with the note.
unfoldable pub verdict_of :
    (inspect : Run → Verdict) (owner_alive : Owner → Bool) (closed : Option String → Json)
    → Acknowledgement
    → Run
    → Result RunError Verdict
unfolding is_set is_verdict has_note
verdict_of inspect owner_alive closed ack r =
    if is_set "detached_execution" r
    then (if is_verdict (inspect r).status then ok (inspect r) else err invalid_outcome)
    else if ack.confirmed && has_note ack.note && not (owner_alive r.owner)
    then ok (record { status = failed; result = Json.null; error = closed ack.note })
    else err (unconfirmed r.run_id)

unfoldable pub is_unknown : RunStatus → Bool
is_unknown unknown = true
is_unknown _ = false

unfoldable pub closed_run : String → ℕ → Option String → Verdict → Run → Run
unfolding is_unknown
closed_run actor now note v r = record r {
  status = v.status;
  result = v.result;
  error = v.error;
  finished_at = if is_unknown v.status then none else some now;
  reconciliation = some (record { actor = actor; at = now; note = note; status = v.status });
}

module _ (inspect : Run → Verdict) (owner_alive : Owner → Bool) (closed : Option String → Json)
    (now : ℕ) (run_id actor : String) (ack : Acknowledgement) where
  -- `reconcile_run`, once the record is found.
  unfoldable pub close_found : Run → Action Run
  unfolding is_closable verdict_of to_json closed_run save release_key
  close_found r = do
    ensure (is_closable r.status) (not_unknown run_id)
    v ← lift (verdict_of inspect owner_alive closed ack r)
    modify (save (closed_run actor now ack.note v r))
    modify (release_key (closed_run actor now ack.note v r))
    pure (to_json (closed_run actor now ack.note v r))

  unfoldable pub reconcile_run : (process : String) → Json → Action Run
  unfolding get_run close_found
  reconcile_run process lost = do
    ensure (if actor == "" then false else true) actor_required
    found ← get_run process lost run_id
    r ← lift (some_or unknown_run found)
    close_found r

-- The controller starts again: its memory is gone.
unfoldable pub restart : Engine → Engine
restart e = record e { runs = []; active = [] }
