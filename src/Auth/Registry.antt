-- ===== src/Auth/Registry.antt =====
-- The principal registry of webapp/auth.py: when it is in force, and `_load_entries`.
use oracle_patching.Prelude.{
  ℕ, String, Bool, true, false, not, ◌&&◌, ◌||◌, Option, none, some, List, [], ◌∷◌, ◌==◌, string_eq,
  any, if◌then◌else◌,
}
use oracle_patching.Prelude.Text.{codes, strip, is_on, is_off, is_hex}
use oracle_patching.Prelude.Dict
use oracle_patching.Json
use oracle_patching.Json.{Json}
use oracle_patching.Exec.{Result, ok, err, and_then, check, some_or}

-- The texts of `AuthError`; `auth_status` gives the HTTP status of each.
pub data AuthError : Type 0 where
  missing_credential registry_unsafe registry_unreadable registry_empty malformed_entry : AuthError
  invalid_identity invalid_digest digest_required : AuthError
  unknown_action actor_required not_a_principal lacks_role : AuthError

unfoldable pub auth_status : AuthError → ℕ
auth_status missing_credential = 401
auth_status registry_unsafe = 503
auth_status registry_unreadable = 503
auth_status registry_empty = 503
auth_status malformed_entry = 503
auth_status invalid_identity = 503
auth_status invalid_digest = 503
auth_status digest_required = 503
auth_status unknown_action = 500
auth_status actor_required = 403
auth_status not_a_principal = 403
auth_status lacks_role = 403

-- ACTION_ROLES
unfoldable pub role_needs : List (String × List String)
role_needs =
    ("read", "viewer" ∷ "requester" ∷ "approver" ∷ "operator" ∷ "admin" ∷ [])
    ∷ ("create", "requester" ∷ "admin" ∷ [])
    ∷ ("approve", "approver" ∷ "admin" ∷ [])
    ∷ ("authorize", "operator" ∷ "admin" ∷ [])
    ∷ ("dispatch", "operator" ∷ "admin" ∷ [])
    ∷ ("execute", "operator" ∷ "admin" ∷ [])
    ∷ ("agent", "operator" ∷ "admin" ∷ [])
    ∷ []

-- ACTION_ROLES.get
unfoldable pub action_roles : String → Option (List String)
action_roles action = Dict.get action role_needs

-- The union of the values of ACTION_ROLES.
abbrev pub allowed_roles : List String
allowed_roles = "viewer" ∷ "requester" ∷ "approver" ∷ "operator" ∷ "admin" ∷ []

-- What stands at `principals_path()`: nothing, something that is no regular file or a symbolic link,
-- a file that is no JSON, or a JSON value.
pub data RegistryFile : Type 0 where
  missing unsafe unreadable : RegistryFile
  parsed : Json → RegistryFile

-- The environment's texts, "" where they are not set, and the registry.
pub record World : Type 0 where
  pub production_mode : String
  pub rbac_flag : String
  pub principals_file : String
  pub registry : RegistryFile

-- `principals_path().exists() or principals_path().is_symlink()`
unfoldable pub present : RegistryFile → Bool
present missing = false
present _ = true

unfoldable pub rbac_enabled : World → Bool
unfolding is_on is_off strip present
rbac_enabled w =
    if is_on w.production_mode
    then true
    else if is_off w.rbac_flag
    then false
    else if is_on w.rbac_flag
    then true
    else (if strip w.principals_file == "" then false else true) || present w.registry

pub record Principal : Type 0 where
  pub actor : String
  pub roles : List String
  pub token_sha256 : Option String

unfoldable pub mem_text : String → List String → Bool
unfolding any
mem_text t ts = any (λ u. u == t) ts

-- `roles`: a nonempty list of allowed texts.
unfoldable pub role_texts : Json.Items → Option (List String)
unfolding mem_text
role_texts Json.nil = some []
role_texts (Json.cons (Json.str r) vs) =
    let rest = role_texts vs in
    if mem_text r allowed_roles then elim rest [ none ↦ none | some rs ↦ some (r ∷ rs) ] else none
role_texts (Json.cons v vs) = none

unfoldable pub roles_of : Json → Option (List String)
unfolding role_texts
roles_of (Json.arr (Json.cons v vs)) = role_texts (Json.cons v vs)
roles_of _ = none

-- The digest of an entry, where it is acceptable: none or a SHA-256 value that is not in `seen`.
unfoldable pub digest_of : List String → Json → Result AuthError (Option String)
unfolding is_hex codes mem_text
digest_of seen Json.null = ok none
digest_of seen (Json.str d) =
    if is_hex 64 (codes d) && not (mem_text d seen) then ok (some d) else err invalid_digest
digest_of seen v = err invalid_digest

-- `entry["actor"]`, where the entry is a `dict` and this is a text
unfoldable pub actor_of : Json → Option String
unfolding Json.get
actor_of (Json.obj fs) = elim (Json.get "actor" (Json.obj fs)) [ Json.str a ↦ some a | v ↦ none ]
actor_of v = none

unfoldable pub add_digest : Option String → List String → List String
add_digest none ds = ds
add_digest (some d) ds = d ∷ ds

unfoldable pub has_digest : Option String → Bool
has_digest none = false
has_digest (some d) = true

-- One entry, after those with the actors and digests seen.
unfoldable pub check_entry :
    (required : Bool) (actors digests : List String) → Json → Result AuthError Principal
unfolding actor_of strip mem_text roles_of digest_of Json.get has_digest
check_entry required actors digests entry =
    and_then (some_or malformed_entry (actor_of entry)) λ name.
      and_then (check (not (strip name == "" || mem_text (strip name) actors)) invalid_identity)
        λ _. and_then (some_or invalid_identity (roles_of (Json.get "roles" entry))) λ roles.
          and_then (digest_of digests (Json.get "token_sha256" entry)) λ digest.
            and_then (check (not required || has_digest digest) digest_required)
              λ _. ok (record { actor = strip name; roles = roles; token_sha256 = digest })

unfoldable pub check_entries :
    (required : Bool) (actors digests : List String) → List Json → Result AuthError (List Principal)
unfolding check_entry add_digest
check_entries required actors digests [] = ok []
check_entries required actors digests (v ∷ vs) =
    and_then (check_entry required actors digests v) λ p.
      and_then (check_entries required (p.actor ∷ actors) (add_digest p.token_sha256 digests) vs)
        λ ps. ok (p ∷ ps)

-- `_load_entries`
unfoldable pub load_entries : World → (required : Bool) → Result AuthError (List Principal)
unfolding rbac_enabled Json.get Json.elements check_entries
load_entries w required = elim w.registry [
  | missing ↦ if required || rbac_enabled w then err registry_unsafe else ok []
  | unsafe ↦ if required || rbac_enabled w then err registry_unsafe else ok []
  | unreadable ↦ err registry_unreadable
  | parsed v ↦ elim (Json.get "principals" v) [
    | Json.arr (Json.cons p ps) ↦ check_entries required [] [] (Json.elements (Json.cons p ps))
    | x ↦ err registry_empty
  ]
]
