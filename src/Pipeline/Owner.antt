-- ===== src/Pipeline/Owner.antt =====
-- The owner that staged media gets: `_OWNER_RE` and `_stage_owner_from_snapshot`.
use oracle_patching.Prelude.{
  ℕ, String, Bool, true, false, not, ◌&&◌, ◌||◌, Option, none, some, List, [], ◌∷◌, ltb, ◌==◌,
  nat_eq, if◌then◌else◌, length, all,
}
use oracle_patching.Prelude.Text.{chomp, is_alnum, pieces}
use oracle_patching.Exec.{Result, ok, err, pure, ◌>>=◌}
use oracle_patching.Json.{Json, get, truthy, is_dict, is_str}
use oracle_patching.Phases.Values.{Fault, fault, dict_or_empty, dict_or_fault, text}
use oracle_patching.Remote.Quote.{Text}
use oracle_patching.World.{Action}
use oracle_patching.Evidence.Store.{read_evidence}
use oracle_patching.Pipeline.Targets.{Env, has_key}
use oracle_patching.Pipeline.Collect.{readable}
use oracle_patching.Pipeline.Compat.{unpacked}
use oracle_patching.Pipeline.Refresh.{same_key, hashable}

-- [A-Za-z0-9_]
unfoldable pub starts_user : ℕ → Bool
starts_user c = is_alnum c || c == b'_'

-- [A-Za-z0-9_.-]
unfoldable pub is_user_char : ℕ → Bool
unfolding starts_user
is_user_char c = starts_user c || c == b'.' || c == b'-'

-- `[A-Za-z0-9_][A-Za-z0-9_.-]{0,31}`
unfoldable pub is_user : Text → Bool
unfolding starts_user is_user_char
is_user [] = false
is_user (c ∷ cs) = starts_user c && ltb (length cs) 32 && all is_user_char cs

unfoldable pub is_user_and_group : List Text → Bool
unfolding is_user
is_user_and_group (user ∷ []) = is_user user
is_user_and_group (user ∷ group ∷ []) = is_user user && is_user group
is_user_and_group _ = false

-- `_OWNER_RE.match(owner)`
unfoldable pub is_owner : Text → Bool
unfolding is_user_and_group
is_owner owner = is_user_and_group (pieces (λ c. c == b':') [] (chomp owner))

pub record OwnedHome : Type 0 where
  pub path : Json
  pub owner : Json

-- `homes[path] = owner`, of a `dict` in the order of its keys.
unfoldable pub put_home : OwnedHome → List OwnedHome → List OwnedHome
unfolding same_key
put_home new [] = new ∷ []
put_home new (h ∷ hs) =
    let rest = put_home new hs in
    if same_key h.path new.path then record { path = h.path; owner = new.owner } ∷ hs else h ∷ rest

-- `{h.get("path"): h.get("owner") for h in … if isinstance(h, dict)}`
unfoldable pub homes_of : List Json → List OwnedHome → Result Fault (List OwnedHome)
unfolding hashable put_home
homes_of [] found = ok found
homes_of (h ∷ hs) found =
    let one : OwnedHome = record { path = get "path" h; owner = get "owner" h } in
    elim (is_dict h) [
      | false ↦ homes_of hs found
      | true ↦ elim (hashable (get "path" h)) [
        | true ↦ homes_of hs (put_home one found)
        | false ↦ err fault
      ]
    ]

-- `homes.get(path)`
unfoldable pub owner_at : Json → List OwnedHome → Json
unfolding same_key
owner_at path [] = Json.null
owner_at path (h ∷ hs) = if same_key h.path path then h.owner else owner_at path hs

-- `owner and owner != "unknown"`
unfoldable pub is_known_owner : Json → Bool
is_known_owner owner = truthy owner && not (is_str "unknown" owner)

unfoldable pub known_owner : Json → Option Json
unfolding is_known_owner
known_owner owner = if is_known_owner owner then some owner else none

unfoldable pub owner_of_home : Json → List OwnedHome → Result Fault (Option Json)
unfolding hashable owner_at known_owner
owner_of_home path homes =
    if hashable path then ok (known_owner (owner_at path homes)) else err fault

-- The first known owner of a database's home.
unfoldable pub database_owner : List Json → List OwnedHome → Result Fault (Option Json)
unfolding owner_of_home
database_owner [] homes = ok none
database_owner (db ∷ dbs) homes = elim (is_dict db) [
  | false ↦ database_owner dbs homes
  | true ↦
      oracle_patching.Exec.and_then (owner_of_home (get "oracle_home" db) homes)
        λ found. elim found [ some owner ↦ ok (some owner) | none ↦ database_owner dbs homes ]
]

unfoldable pub any_owner : List OwnedHome → Option Json
unfolding is_known_owner
any_owner [] = none
any_owner (h ∷ hs) = if is_known_owner h.owner then some h.owner else any_owner hs

-- `procedure.get("target", {}).get("family")`
unfoldable pub target_family : Json → Result Fault Json
target_family procedure =
    if has_key "target" procedure
    then oracle_patching.Exec.and_then (dict_or_fault (get "target" procedure))
        (λ target. ok (get "family" target))
    else ok Json.null

-- What the saved procedure targets.
unfoldable pub family_of : Option Json → Result Fault Json
unfolding target_family
family_of none = ok Json.null
family_of (some evidence) =
    if is_dict evidence
    then oracle_patching.Exec.and_then (dict_or_empty (get "procedure" evidence)) target_family
    else ok Json.null

unfoldable pub grid_owner : Json → Json → List OwnedHome → Result Fault (Option Json)
unfolding owner_of_home
grid_owner family snapshot homes =
    let found =
      oracle_patching.Exec.and_then (dict_or_empty (get "cluster" snapshot))
        λ cluster. owner_of_home (get "grid_home" cluster) homes in
    if is_str "grid" family then found else ok none

-- The owner of the grid home, of the first database with a known one, or of any home.
unfoldable pub owner_in : Json → Json → Result Fault (Option Json)
unfolding homes_of grid_owner database_owner any_owner
owner_in family snapshot =
    oracle_patching.Exec.and_then (unpacked (get "oracle_homes" snapshot)) λ listed.
      oracle_patching.Exec.and_then (homes_of listed []) λ homes.
        oracle_patching.Exec.and_then (grid_owner family snapshot homes) λ grid. elim grid [
          | some owner ↦ ok (some owner)
          | none ↦ oracle_patching.Exec.and_then (unpacked (get "databases" snapshot)) λ dbs.
              oracle_patching.Exec.and_then (database_owner dbs homes)
                λ found. ok (elim found [ some owner ↦ some owner | none ↦ any_owner homes ])
        ]

module _ (env : Env) (host_id : String) where
  owner_text : Option Json → Option String
  owner_text none = none
  owner_text (some v) = some (text env.show v)

  unfoldable pub owner_from : Option Json → Action (Option String)
  unfolding family_of owner_in owner_text
  owner_from none = pure none
  owner_from (some snapshot) =
      let found = read_evidence env.evidence host_id "procedure" >>= λ procedure.
      readable (family_of procedure) >>= λ family.
      readable (owner_in family snapshot) >>= λ owner. pure (owner_text owner) in
      if is_dict snapshot then found else pure none

  -- `_stage_owner_from_snapshot`
  unfoldable pub stage_owner_from_snapshot : Action (Option String)
  unfolding owner_from
  stage_owner_from_snapshot =
      read_evidence env.evidence host_id "snapshot" >>= λ snapshot. owner_from snapshot
