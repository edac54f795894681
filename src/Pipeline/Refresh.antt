-- ===== src/Pipeline/Refresh.antt =====
-- The digests that the readiness chain refreshes in a saved procedure: `_refresh_procedure_input`.
use oracle_patching.Prelude.{
  Bool, true, false, not, ◌||◌, Option, none, some, List, [], ◌∷◌, ◌==◌, nat_eq, string_eq,
  if◌then◌else◌, is_nil,
}
use oracle_patching.Exec.{Result, ok, err}
use oracle_patching.Json.{Json, Fields, get, truthy, is_dict, is_str, is_int, array}
use oracle_patching.Phases.Values.{Fault, fault, ◌>>=◌, dict_or_empty}
use oracle_patching.Pipeline.Compat.{unpacked, assign}

-- `read_evidence(…) or {}`, on which `get` is called.
unfoldable pub document : Option Json → Result Fault Json
unfolding dict_or_empty
document none = ok (Json.obj Fields.end)
document (some j) = dict_or_empty j

-- Equality of keys of a `dict`; a float equals no key.
unfoldable pub same_key : Json → Json → Bool
same_key Json.null Json.null = true
same_key (Json.str s) v = is_str s v
same_key (Json.int n) v = is_int n v
same_key (Json.neg n) (Json.neg m) = n == m
same_key (Json.bool true) v = is_int 1 v
same_key (Json.bool false) v = is_int 0 v
same_key _ _ = false

-- A list or a `dict` is no key.
unfoldable pub hashable : Json → Bool
hashable (Json.arr xs) = false
hashable (Json.obj fs) = false
hashable _ = true

pub record Readme : Type 0 where
  pub path : Json
  pub sha256 : Json

-- `{r.get("path"): r.get("sha256") for r in … if isinstance(r, dict)}`, the last first.
unfoldable pub readmes_of : List Json → List Readme → Result Fault (List Readme)
unfolding hashable
readmes_of [] found = ok found
readmes_of (r ∷ rs) found =
    let one : Readme = record { path = get "path" r; sha256 = get "sha256" r } in
    elim (is_dict r) [
      | false ↦ readmes_of rs found
      | true ↦ elim (hashable (get "path" r)) [
        | true ↦ readmes_of rs (one ∷ found)
        | false ↦ err fault
      ]
    ]

unfoldable pub readme_digest : Json → List Readme → Option Json
unfolding same_key
readme_digest k [] = none
readme_digest k (r ∷ rs) = if same_key r.path k then some r.sha256 else readme_digest k rs

unfoldable pub with_digest : Json → Option Json → Json
unfolding assign
with_digest ref none = ref
with_digest ref (some sha) = assign "sha256" sha ref

-- A reference to a README takes the digest that was just derived.
unfoldable pub refresh_ref : List Readme → Json → Result Fault Json
unfolding hashable readme_digest with_digest
refresh_ref readmes ref =
    if not (is_dict ref) || not (is_str "patch_readme" (get "kind" ref))
    then ok ref
    else if hashable (get "identifier" ref)
    then ok (with_digest ref (readme_digest (get "identifier" ref) readmes))
    else err fault

unfoldable pub refresh_refs : List Readme → List Json → Result Fault (List Json)
unfolding refresh_ref
refresh_refs readmes [] = ok []
refresh_refs readmes (r ∷ rs) =
    refresh_ref readmes r >>= λ ref. refresh_refs readmes rs >>= λ refs. ok (ref ∷ refs)

-- `_refresh_procedure_input`, of what `read_evidence(host_id, "artifact")` gave.
unfoldable pub refresh_procedure_input : Option Json → Json → Result Fault Json
unfolding document dict_or_empty readmes_of refresh_refs unpacked assign
refresh_procedure_input evidence procedure_input = do
  inspected ← document evidence
  artifact ← dict_or_empty (get "artifact" inspected)
  let sha = get "sha256" artifact
  let out = if truthy sha then assign "artifact_sha256" sha procedure_input else procedure_input
  files ← unpacked (get "readme_files" artifact)
  readmes ← readmes_of files []
  listed ← unpacked (get "oracle_references" out)
  refs ← refresh_refs readmes listed
  ok (if is_nil refs then out else assign "oracle_references" (array refs) out)
