-- ===== src/Auth.antt =====
-- Bearer authentication and the roles of principals: webapp/auth.py. The state is the token that the
-- process has cached and the token file; the principal registry is read only.
pub mod Registry
pub mod Entries
pub mod Access
pub mod Roles
mod Scenarios
use oracle_patching.Prelude.{
  ℕ, String, ◌<>◌, Bool, true, false, not, ◌&&◌, ◌||◌, Option, none, some, List, [], ◌∷◌, ◌==◌,
  string_eq, any, select, map, if◌then◌else◌,
}
use oracle_patching.Prelude.Text.{
  codes, strip, is_on, is_off, drop_spaces, is_space, lower, codes_eq,
}
use oracle_patching.Prelude.Dict
use oracle_patching.Exec.{
  Result, ok, err, and_then, check, some_or, Exec, pure, raise, lift, modify, ensure, ◌>>=◌, ◌>>◌,
}
use oracle_patching.Auth.Registry.{
  AuthError, missing_credential, actor_required, unknown_action, not_a_principal, lacks_role, World,
  Principal, rbac_enabled, load_entries, mem_text,
}

-- The first word, and what stands behind it, of a text without space at its start.
unfoldable pub first_word : String → String × String
unfolding is_space
first_word String.[] = (String.[], String.[])
first_word (String.◌∷◌ c s) =
    let (w, rest) = first_word s in
    if is_space (Prim.Native.Char.code c) then (String.[], s) else (String.◌∷◌ c w, rest)

-- `extract_bearer`: of `header.strip().split(None, 1)`, the second part after the word "bearer".
unfoldable pub extract_bearer : Option String → Option String
unfolding strip first_word lower codes codes_eq drop_spaces
extract_bearer none = none
extract_bearer (some header) =
    let (word, rest) = first_word (strip header) in
    let token = strip rest in
    if codes_eq (lower (codes word)) (codes "bearer")
    then (if token == "" then none else some token)
    else none

-- What a process keeps of the development token.
pub record TokenState : Type 0 where
  pub cached : Option String
  pub file : Option String

abbrev pub filled : Option String → Option String
filled none = none
filled (some t) = if t == "" then none else some t

-- `_read_token_file`
unfoldable pub read_token_file : TokenState → Option String
unfolding strip
read_token_file s = elim s.file [ none ↦ none | some raw ↦ filled (some (strip raw)) ]

-- `env_token` is the text of the environment, `generated` what `secrets.token_urlsafe` gives.
unfoldable pub ensure_token : (env_token generated : String) → Exec AuthError TokenState String
unfolding strip read_token_file
ensure_token env_token generated s = elim (filled s.cached) [
  | some t ↦ (ok t, s)
  | none ↦ elim (filled (some (strip env_token))) [
    | some t ↦ (ok t, record s { cached = some t })
    | none ↦ elim (read_token_file s) [
      | some t ↦ (ok t, record s { cached = some t })
      | none ↦ (ok generated, record { cached = some generated; file = some (generated <> "\n") })
    ]
  ]
]

-- The test of the comprehension in `require_api_auth`.
unfoldable pub is_match : String → Principal → Bool
is_match digest e = elim e.token_sha256 [
  | none ↦ false
  | some d ↦ (if d == "" then false else true) && digest == d
]

unfoldable pub matches : String → List Principal → List Principal
unfolding is_match select
matches digest entries = select (is_match digest) entries

unfoldable pub only_match : List Principal → Result AuthError (Option String)
only_match (e ∷ []) = ok (some e.actor)
only_match _ = err missing_credential

unfoldable pub principal_of :
    (sha256 : String → String) → World → Option String → Result AuthError (Option String)
unfolding load_entries matches only_match
principal_of sha256 w provided = and_then (load_entries w true) λ entries.
    and_then (some_or missing_credential provided) λ p. only_match (matches (sha256 p) entries)

-- The shared token of the lab.
unfoldable pub shared_token :
    (env_token generated : String) → Option String → Exec AuthError TokenState (Option String)
unfolding ensure_token
shared_token env_token generated provided = do
  expected ← ensure_token env_token generated
  ensure (elim provided [ none ↦ false | some p ↦ p == expected ]) missing_credential
  pure none

unfoldable pub require_api_auth :
    (sha256 : String → String) (env_token generated : String)
    → World
    → Option String
    → Exec AuthError TokenState (Option String)
unfolding extract_bearer rbac_enabled principal_of shared_token
require_api_auth sha256 env_token generated w header =
    if rbac_enabled w
    then lift (principal_of sha256 w (extract_bearer header))
    else shared_token env_token generated (extract_bearer header)

-- `if actor and roles: out[actor] = roles`
unfoldable pub add_roles :
    String → List String → List (String × List String) → List (String × List String)
unfolding Dict.put
add_roles actor [] out = out
add_roles actor (r ∷ rs) out = if actor == "" then out else Dict.put actor (r ∷ rs) out

-- The loop of `load_principals`.
unfoldable pub role_table :
    List Principal → List (String × List String) → List (String × List String)
unfolding strip add_roles select
role_table [] out = out
role_table (e ∷ es) out =
    let roles = select (λ r. if r == "" then false else true) (map strip e.roles) in
    role_table es (add_roles (strip e.actor) roles out)

unfoldable pub load_principals : World → Result AuthError (List (String × List String))
unfolding load_entries role_table
load_principals w = elim (load_entries w false) [ err e ↦ err e | ok es ↦ ok (role_table es []) ]

unfoldable pub validate_configuration : World → Result AuthError (Unit {0})
unfolding rbac_enabled load_entries
validate_configuration w =
    if rbac_enabled w then elim (load_entries w true) [ err e ↦ err e | ok es ↦ ok tt ] else ok tt

-- `roles.isdisjoint(needed)` is false.
unfoldable pub meets_role : List String → List String → Bool
unfolding any mem_text
meets_role roles needed = any (λ r. mem_text r needed) roles

-- `str(actor).strip()`, where it is not empty
unfoldable pub named : Option String → Option String
unfolding strip
named none = none
named (some a) = filled (some (strip a))

unfoldable pub require_role : World → Option String → String → Result AuthError (Unit {0})
unfolding rbac_enabled Registry.action_roles named load_principals Dict.get meets_role
require_role w actor action =
    if rbac_enabled w
    then (and_then (some_or unknown_action (Registry.action_roles action)) λ needed.
        and_then (some_or actor_required (named actor)) λ a.
          and_then (load_principals w) λ principals.
            and_then (some_or not_a_principal (Dict.get a principals))
              λ roles. check (meets_role roles needed) lacks_role)
    else ok tt
