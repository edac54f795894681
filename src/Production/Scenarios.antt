-- ===== src/Production/Scenarios.antt =====
-- A certificate with two of the four lines, and the theorem on it.
use Prim.Native.String.{String}
use mathlib.Core.List.{Memᴰ}
use oracle_patching.Prelude.{◌≡◌, refl, true, none, some, any}
use oracle_patching.Prelude.Text.{strip}
use oracle_patching.Exec.{ok, err}
use oracle_patching.Production.{
  World, not_certified, production_mode_enabled, checklist_required, certified_key, checklist_keys,
  require_live_mutation_allowed,
}
use oracle_patching.Production.Certificate.{Marked, allowed-Marked}

abbrev text : String
text = "# signed\r\n OPU_PRODUCTION_CERTIFIED=1 \nOPU_SBOM_VERIFIED=1\n"

abbrev world : (mode checklist : String) → World
world mode checklist = record {
  production_mode = mode;
  require_checklist = checklist;
  cert_text = some text;
}

on : production_mode_enabled (world "yes" "") ≡ true
unfolding production_mode_enabled strip
on = refl

allowed : require_live_mutation_allowed (world "yes" "") ≡ ok tt
unfolding require_live_mutation_allowed strip any
allowed = refl

checklist_refuses : require_live_mutation_allowed (world "yes" "1") ≡ err not_certified
unfolding require_live_mutation_allowed strip any
checklist_refuses = refl

-- A switch in capitals does not turn the gate on.
capitals_are_off :
    require_live_mutation_allowed (record (world "TRUE" "") { cert_text = none }) ≡ ok tt
unfolding require_live_mutation_allowed strip
capitals_are_off = refl

allowed-Marked_example :
    (t : String) × (some text ≡ some t)
    × Marked t certified_key
    × (checklist_required (world "yes" "") ≡ true
        → (key : String) → Memᴰ key checklist_keys
        → Marked t key)
allowed-Marked_example = allowed-Marked (world "yes" "") on allowed
