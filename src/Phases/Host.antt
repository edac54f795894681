-- ===== src/Phases/Host.antt =====
-- The phases of the host, its Oracle homes and their patch inventory.
use oracle_patching.Prelude.{
  ℕ, suc, ◌+◌, String, ◌<>◌, Bool, ◌&&◌, not, List, [], ◌∷◌, ◌++◌, map, ◌==◌, ◌!=◌, nat_eq,
  string_eq, if◌then◌else◌, length, take, is_nil,
}
use oracle_patching.Prelude.Text.Decimal.{decimal}
use oracle_patching.Exec.{Result, ok, err}
use Prim.Native.String.{count}
use oracle_patching.Json.{Json, Fields, get, truthy, is_str, elements}
use oracle_patching.Phases.Values.{
  Fault, fault, ◌>>=◌, dict_or_empty, stripped, dict_or_fault, says, some_list, text, text_else,
  joined, as_texts,
}
use oracle_patching.Phases.Defs.{
  Phase, phase, host_identity_def, oracle_homes_def, patch_inventory_def,
}

-- The decision of `_host_identity`.
unfoldable pub host_phase : (name os_name kernel collected_at : String) → Phase
unfolding joined
host_phase name os_name kernel collected_at =
    let os_bits = if os_name == "" then [] else os_name ∷ [] in
    let kernel_bits = if kernel == "" then [] else ("kernel " <> kernel) ∷ [] in
    let complete = not (os_name == "") && not (kernel == "") in
    if name == ""
    then phase host_identity_def "fail" "Host name missing from snapshot." ""
    else phase host_identity_def (if complete then "pass" else "partial")
        (joined "; " (name ∷ (os_bits ++ kernel_bits))) ("collected_at=" <> collected_at)

unfoldable pub host_identity : (show : Json → String) → Json → Result Fault Phase
unfolding dict_or_empty stripped host_phase text_else
host_identity show snapshot = do
  host ← dict_or_empty (get "host" snapshot)
  name ← stripped (get "name" host)
  os_name ← stripped (get "os" host)
  kernel ← stripped (get "kernel" host)
  ok (host_phase name os_name kernel (text_else show "unknown" (get "collected_at" snapshot)))

-- What the loop over the homes finds of one.
pub record Home : Type 0 where
  pub path : Json
  pub owner : String
  pub opatch_version : String

unfoldable pub read_home : Json → Result Fault Home
unfolding dict_or_fault stripped
read_home v = do
  home ← dict_or_fault v
  owner ← stripped (get "owner" home)
  opatch_version ← stripped (get "opatch_version" home)
  ok (record {
    path = if truthy (get "path" home) then get "path" home else Json.str "?";
    owner = owner;
    opatch_version = opatch_version;
  })

unfoldable pub read_homes : List Json → Result Fault (List Home)
unfolding read_home
read_homes [] = ok []
read_homes (v ∷ vs) = read_home v >>= λ h. read_homes vs >>= λ hs. ok (h ∷ hs)

unfoldable pub missing_owner : List Home → List Json
missing_owner [] = []
missing_owner (h ∷ hs) =
    let rest = missing_owner hs in if h.owner == "" then h.path ∷ rest else rest

unfoldable pub missing_opatch : List Home → List Json
missing_opatch [] = []
missing_opatch (h ∷ hs) =
    let rest = missing_opatch hs in if h.opatch_version == "" then h.path ∷ rest else rest

-- `sum(1 for h in homes if (h.get("version") or "").strip())`
unfoldable pub with_version : List Json → Result Fault ℕ
unfolding stripped
with_version [] = ok 0
with_version (h ∷ hs) =
    stripped (get "version" h) >>= λ v. with_version hs >>= λ n. ok (if v == "" then n else suc n)

-- `f"{h.get('path')} ({h.get('opatch_version')})"`, joined over the first four homes.
home_text : (show : Json → String) → Json → String
unfolding text
home_text show h = text show (get "path" h) <> " (" <> text show (get "opatch_version" h) <> ")"

unfoldable pub owner_missing : List Json → List Json → List String → Phase
unfolding joined
owner_missing homes owners names =
    phase oracle_homes_def "fail"
      (decimal (length homes) <> " home(s); owner missing on " <> decimal (length owners) <> ".")
      (joined ", " names)

unfoldable pub opatch_missing : List Json → List Json → List String → Phase
unfolding joined
opatch_missing homes opatch names =
    phase oracle_homes_def "partial"
      (decimal (length homes)
        <> " home(s); OPatch version missing on "
        <> decimal (length opatch)
        <> ".")
      (joined ", " names)

-- The branches of `_oracle_homes` after its loop.
unfoldable pub homes_phase :
    (show : Json → String) → List Json → List Json → List Json → Result Fault Phase
unfolding with_version as_texts joined home_text owner_missing opatch_missing
homes_phase show homes (o ∷ owners) opatch = do
  names ← as_texts (take 4 (o ∷ owners))
  ok (owner_missing homes (o ∷ owners) names)
homes_phase show homes [] (o ∷ opatch) = do
  versions ← with_version homes
  names ← as_texts (take 4 (o ∷ opatch))
  ok (opatch_missing homes (o ∷ opatch) names)
homes_phase show homes [] [] = do
  versions ← with_version homes
  ok (
      phase oracle_homes_def "pass"
        (decimal (length homes)
          <> " home(s); OPatch present on all; version on "
          <> decimal versions
          <> "/"
          <> decimal (length homes)
          <> ".")
        (joined "; " (map (home_text show) (take 4 homes))))

unfoldable pub oracle_homes : (show : Json → String) → Json → Result Fault Phase
unfolding some_list read_homes missing_owner missing_opatch homes_phase
oracle_homes show snapshot =
    let homes = some_list (get "oracle_homes" snapshot) in
    let evaluated =
      read_homes homes >>= λ hs. homes_phase show homes (missing_owner hs) (missing_opatch hs) in
    if is_nil homes
    then ok (
        phase oracle_homes_def "fail" "No Oracle homes discovered."
          "Reconcile and compatibility cannot select a target home.")
    else evaluated

-- The platform evidence of one home.
pub data Platform : Type 0 where
  collected failed unavailable : Platform

-- `id`, `name`, `source` and `source_sha256` are there.
unfoldable pub is_complete : Json → Bool
is_complete platform =
    truthy (get "id" platform)
    && truthy (get "name" platform)
    && is_str "opatch_lsinventory_xml" (get "source" platform)
    && truthy (get "source_sha256" platform)

unfoldable pub platform_of : (show : Json → String) → Json → Platform
unfolding says is_complete
platform_of show platform =
    if says show "collected" (get "status" platform)
    then (if is_complete platform then collected else failed)
    else if says show "failed" (get "status" platform)
    then failed
    else unavailable

pub record Tally : Type 0 where
  pub collected : ℕ
  pub failed : ℕ
  pub unavailable : ℕ
  pub patches : ℕ

unfoldable pub count_platform : Platform → ℕ → Tally → Tally
count_platform collected n t = record t { collected = suc t.collected; patches = t.patches + n }
count_platform failed n t = record t { failed = suc t.failed; patches = t.patches + n }
count_platform unavailable n t = record t {
  unavailable = suc t.unavailable;
  patches = t.patches + n;
}

unfoldable pub count_fields : Fields → ℕ
count_fields Fields.end = 0
count_fields (Fields.field k v fs) = suc (count_fields fs)

-- `len(value or [])`
unfoldable pub size : Json → Result Fault ℕ
unfolding count_fields
size (Json.arr xs) = ok (length (elements xs))
size (Json.str s) = ok (count s)
size (Json.obj fs) = ok (count_fields fs)
size v = if truthy v then err fault else ok 0

-- The loop of `_patch_inventory`.
unfoldable pub tally : (show : Json → String) → List Json → Result Fault Tally
unfolding dict_or_fault dict_or_empty size platform_of count_platform
tally show [] = ok (record { collected = 0; failed = 0; unavailable = 0; patches = 0 })
tally show (h ∷ hs) = dict_or_fault h >>= λ home.
    dict_or_empty (get "platform" home) >>= λ platform. size (get "patches" home) >>= λ n.
    tally show hs >>= λ t. ok (count_platform (platform_of show platform) n t)

-- The branches of `_patch_inventory` after its loop, over `n` homes.
unfoldable pub inventory_phase : ℕ → Tally → Phase
inventory_phase n t =
    if t.collected == n
    then phase patch_inventory_def "pass"
        ("Platform XML collected for "
          <> decimal t.collected
          <> "/"
          <> decimal n
          <> " home(s); "
          <> decimal t.patches
          <> " installed patch id(s).")
        "Required before reconcile, compatibility, and readiness platform binding."
    else if t.failed != 0
    then phase patch_inventory_def "fail"
        ("Platform evidence incomplete: collected="
          <> decimal t.collected
          <> ", failed="
          <> decimal t.failed
          <> ", unavailable="
          <> decimal t.unavailable
          <> " of "
          <> decimal n
          <> ".")
        "Reconcile blocks homes without platform.status=collected from OPatch XML."
    else if t.collected != 0
    then phase patch_inventory_def "partial"
        ("Platform XML on "
          <> decimal t.collected
          <> "/"
          <> decimal n
          <> " home(s); "
          <> decimal t.unavailable
          <> " unavailable.")
        "All target homes need collected platform evidence before reconcile."
    else phase patch_inventory_def "unavailable"
        ("No OPatch XML platform evidence on " <> decimal n <> " home(s).")
        "Run discovery as a user that can execute opatch lsinventory -xml."

unfoldable pub patch_inventory : (show : Json → String) → Json → Result Fault Phase
unfolding some_list tally inventory_phase
patch_inventory show snapshot =
    let homes = some_list (get "oracle_homes" snapshot) in
    let evaluated = tally show homes >>= λ t. ok (inventory_phase (length homes) t) in
    if is_nil homes
    then ok (
        phase patch_inventory_def "fail"
          "No homes — cannot evaluate patch inventory / platform evidence." "")
    else evaluated
