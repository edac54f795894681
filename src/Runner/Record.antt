-- ===== src/Runner/Record.antt =====
-- The runs of webapp/pipeline_runner.py in memory and on disk: `RunRecord`, `to_json`, `_persist`,
-- `_disk_active`, `active_run_id`.
use oracle_patching.Prelude.{
  ℕ, ◌-◌, String, Bool, true, false, ◌&&◌, Option, none, some, List, [], ◌∷◌, length, ◌==◌,
  string_eq, if◌then◌else◌,
}
use oracle_patching.Prelude.Text.{str_ltb}
use oracle_patching.Prelude.Dict
use oracle_patching.Json
use oracle_patching.Json.{Json}
use oracle_patching.Exec.{Result, ok, err, Exec}

pub data RunStatus : Type 0 where
  queued running succeeded failed unknown reconciling : RunStatus
  other : String → RunStatus

-- _UNRESOLVED
unfoldable pub is_unresolved : RunStatus → Bool
is_unresolved queued = true
is_unresolved running = true
is_unresolved unknown = true
is_unresolved reconciling = true
is_unresolved _ = false

pub record Owner : Type 0 where
  pub pid : ℕ
  pub process : String

pub record Closing : Type 0 where
  pub actor : String
  pub at : ℕ
  pub note : Option String
  pub status : RunStatus

pub record Run : Type 0 where
  pub run_id : String
  pub kind : String
  pub key : String
  pub status : RunStatus
  pub created_at : ℕ
  pub started_at : Option ℕ
  pub finished_at : Option ℕ
  pub log_lines : List String
  pub result : Json
  pub error : Json
  pub owner : Owner
  pub context : Json.Fields
  pub reconciliation : Option Closing

-- A `run.json`: what is no JSON, or no `dict` with a text for `key`, and what `_persist` writes.
pub data File : Type 0 where
  unreadable : File
  saved : Run → File

abbrev pub Files : Type 0
Files = List (String × File)

pub record Engine : Type 0 where
  pub disk : Files
  pub runs : List (String × Run)
  pub active : List (String × String)

pub data RunError : Type 0 where
  record_unreadable already_active not_unknown unconfirmed : String → RunError
  actor_required unknown_run invalid_outcome : RunError

abbrev pub Action : Type 0 → Type 0
Action = Exec RunError Engine

unfoldable pub drop_first : ℕ → List String → List String
drop_first Prim.Native.Nat.zero xs = xs
drop_first (Prim.Native.Nat.suc n) [] = []
drop_first (Prim.Native.Nat.suc n) (x ∷ xs) = drop_first n xs

-- `lines[-n:]`
unfoldable pub last_lines : ℕ → List String → List String
unfolding drop_first
last_lines n xs = drop_first (length xs - n) xs

-- What `to_json` gives: the record with the tail of its log.
unfoldable pub to_json : Run → Run
unfolding last_lines
to_json r = record r { log_lines = last_lines 100 r.log_lines }

-- `_persist`, with the record as it then is in memory
unfoldable pub save : Run → Engine → Engine
unfolding to_json
save r e = record e {
  disk = Dict.put r.run_id (saved (to_json r)) e.disk;
  runs = Dict.put r.run_id r e.runs;
}

-- `sorted(RUNS_DIR.glob("*/run.json"))`
unfoldable pub insert_file : String × File → Files → Files
insert_file f [] = f ∷ []
insert_file f (g ∷ gs) = if str_ltb g.0 f.0 then g ∷ insert_file f gs else f ∷ g ∷ gs

unfoldable pub sort_files : Files → Files
unfolding insert_file
sort_files [] = []
sort_files (f ∷ fs) = insert_file f (sort_files fs)

-- The loop of `_disk_active`.
unfoldable pub find_active : String → Files → Result RunError (Option String)
unfolding is_unresolved
find_active key [] = ok none
find_active key ((id, unreadable) ∷ fs) = err (record_unreadable id)
find_active key ((id, saved r) ∷ fs) =
    let rest = find_active key fs in
    if r.key == key && is_unresolved r.status then ok (some id) else rest

unfoldable pub disk_active : String → Engine → Result RunError (Option String)
unfolding sort_files find_active
disk_active key e = find_active key (sort_files e.disk)

-- `_ACTIVE_KEYS.get(key) or _disk_active(key)`
unfoldable pub active_run_id : String → Engine → Result RunError (Option String)
unfolding disk_active Dict.get
active_run_id key e = elim (Dict.get key e.active) [
  | none ↦ disk_active key e
  | some id ↦ if id == "" then disk_active key e else ok (some id)
]

unfoldable pub new_run : (run_id kind key : String) → ℕ → Owner → Run
new_run run_id kind key now owner = record {
  run_id = run_id;
  kind = kind;
  key = key;
  status = queued;
  created_at = now;
  started_at = none;
  finished_at = none;
  log_lines = [];
  result = Json.null;
  error = Json.null;
  owner = owner;
  context = Json.end;
  reconciliation = none;
}

unfoldable pub claim_key : String → String → Engine → Engine
claim_key key id e = record e { active = Dict.put key id e.active }

unfoldable pub unless_active : Option String → Result RunError (Unit {0})
unless_active none = ok tt
unless_active (some id) = err (already_active id)
