-- ===== src/Auth/Scenarios.antt =====
-- A registry of two principals, and the theorems on it.
use Prim.Native.String.{String}
use mathlib.Core.List.{Memᴰ}
use oracle_patching.Prelude.{
  ◌≡◌, refl, true, none, some, List, [], ◌∷◌, any, map, false, ◌==◌, string_eq, if◌then◌else◌,
}
use oracle_patching.Prelude.Text.{codes, strip, is_on, is_off, is_hex}
use oracle_patching.Prelude.Dict
use oracle_patching.Json
use oracle_patching.Json.{Json}
use oracle_patching.Exec.{ok, err, lift}
use oracle_patching.Auth.{TokenState, extract_bearer, require_api_auth, require_role, named}
use oracle_patching.Auth.Registry.{
  World, Principal, parsed, lacks_role, rbac_enabled, load_entries, mem_text, role_needs,
}
use oracle_patching.Auth.Access.{require_api_auth-accepts, require_api_auth_sound}
use oracle_patching.Auth.Roles.{permissions, require_role-permits}

abbrev one : String
one = "aaaaaaaaaaaaaaaaaaaaaaaaaaaaaaaaaaaaaaaaaaaaaaaaaaaaaaaaaaaaaaaa"

abbrev two : String
two = "bbbbbbbbbbbbbbbbbbbbbbbbbbbbbbbbbbbbbbbbbbbbbbbbbbbbbbbbbbbbbbbb"

-- The digest of the token "k" is `one`, and of all others `two`.
abbrev digest : String → String
digest t = if t == "k" then one else two

abbrev entry : (actor role digest : String) → Json
entry actor role digest = Json.obj (
    Json.field "actor" (Json.str actor) (
      Json.field "roles" (Json.arr (Json.cons (Json.str role) Json.nil))
        (Json.field "token_sha256" (Json.str digest) Json.end)))

abbrev world : World
world = record {
  production_mode = "";
  rbac_flag = " ON ";
  principals_file = "";
  registry = parsed (
      Json.obj (
        Json.field "principals"
          (Json.arr (
            Json.cons (entry "ann" "operator" one) (Json.cons (entry "bob" "viewer" two) Json.nil)))
          Json.end));
}

abbrev ann : Principal
ann = record { actor = "ann"; roles = "operator" ∷ []; token_sha256 = some one }

abbrev bob : Principal
bob = record { actor = "bob"; roles = "viewer" ∷ []; token_sha256 = some two }

abbrev fresh : TokenState
fresh = record { cached = none; file = none }

enabled : rbac_enabled world ≡ true
unfolding rbac_enabled is_on is_off strip codes
enabled = refl

loaded : load_entries world true ≡ ok (ann ∷ bob ∷ [])
unfolding load_entries rbac_enabled is_on is_off strip codes is_hex any
loaded = refl

bearer : extract_bearer (some "Bearer k") ≡ some "k"
unfolding extract_bearer strip codes
bearer = refl

require_api_auth-accepts_example :
    require_api_auth digest "" "new" world (some "Bearer k") fresh ≡ (ok (some "ann"), fresh)
require_api_auth-accepts_example =
    require_api_auth-accepts digest "" "new" world (some "Bearer k") fresh enabled "k"
      (ann ∷ bob ∷ []) ann bearer loaded (Memᴰ.head refl) refl

authenticated :
    require_api_auth digest "" "new" world (some "Bearer k") fresh ≡ (ok (some "ann"), fresh)
unfolding require_api_auth rbac_enabled extract_bearer is_on is_off strip codes is_hex any lift
authenticated = refl

require_api_auth_sound_example :
    (t : String) × (ps : List Principal) × (p : Principal) × (extract_bearer (some "Bearer k")
      ≡ some t)
    × (load_entries world true ≡ ok ps)
    × Memᴰ p ps
    × (p.token_sha256 ≡ some (digest t))
    × (some "ann" ≡ some p.actor)
    × (fresh ≡ fresh)
require_api_auth_sound_example =
    require_api_auth_sound digest "" "new" world (some "Bearer k") fresh (some "ann") fresh enabled
      authenticated

ann_executes : require_role world (some " ann ") "execute" ≡ ok tt
unfolding require_role rbac_enabled is_on is_off strip codes is_hex any Dict.get Dict.put role_needs
ann_executes = refl

require_role-permits_example :
    (a : String) × (ps : List Principal) × (p : Principal) × (role : String) × (named (some " ann ")
      ≡ some a)
    × (load_entries world false ≡ ok ps)
    × Memᴰ p ps
    × (strip p.actor ≡ a)
    × Memᴰ role (map strip p.roles)
    × (mem_text "execute" (permissions role) ≡ true)
require_role-permits_example =
    require_role-permits world (some " ann ") "execute" enabled ann_executes

bob_reads_only : require_role world (some "bob") "execute" ≡ err lacks_role
unfolding require_role rbac_enabled is_on is_off strip codes is_hex any Dict.get Dict.put role_needs
bob_reads_only = refl
