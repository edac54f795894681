-- ===== src/Production.antt =====
-- The certification gate before live mutation: webapp/production.py.
pub mod Certificate
mod Scenarios
use Prim.Native.Char.{Char, code}
use oracle_patching.Prelude.{
  ℕ, String, Bool, true, false, not, ◌&&◌, ◌||◌, Option, none, some, List, [], ◌∷◌, ◌==◌, nat_eq,
  string_eq, leb, any, all, map, if◌then◌else◌,
}
use oracle_patching.Prelude.Text.{codes, strip, codes_eq}
use oracle_patching.Exec.{Result, ok, err}

pub data ProductionError : Type 0 where
  not_certified : ProductionError

-- What a process sees: the environment's texts, "" where they are not set, and the certificate's text,
-- none where it is no regular file or a symbolic link.
pub record World : Type 0 where
  pub production_mode : String
  pub require_checklist : String
  pub cert_text : Option String

-- `text.strip() in {"1", "true", "yes", "on"}`: capitals do not match.
unfoldable pub is_switch_on : String → Bool
unfolding strip
is_switch_on text =
    strip text == "1" || strip text == "true" || strip text == "yes" || strip text == "on"

unfoldable pub production_mode_enabled : World → Bool
unfolding is_switch_on
production_mode_enabled w = is_switch_on w.production_mode

unfoldable pub checklist_required : World → Bool
unfolding is_switch_on
checklist_required w = is_switch_on w.require_checklist

-- CHECKLIST_KEYS
abbrev pub certified_key : String
certified_key = "OPU_PRODUCTION_CERTIFIED=1"

abbrev pub checklist_keys : List String
checklist_keys =
    certified_key ∷ "OPU_SBOM_VERIFIED=1" ∷ "OPU_RELEASE_SIGNED=1" ∷ "OPU_THREAT_MODEL_SIGNED=1"
    ∷ []

-- The characters at which `str.splitlines` ends a line.
unfoldable pub ends_line : ℕ → Bool
ends_line c = (leb 10 c && leb c 13) || (leb 28 c && leb c 30) || c == 133 || c == 8232 || c == 8233

unfoldable pub onto_first : Char → List String → List String
onto_first c [] = String.◌∷◌ c String.[] ∷ []
onto_first c (l ∷ ls) = String.◌∷◌ c l ∷ ls

-- `str.splitlines`; a "\n" after a "\r" belongs to it.
unfoldable pub split_lines : (after_return : Bool) → String → List String
unfolding ends_line onto_first
split_lines after_return String.[] = []
split_lines after_return (String.◌∷◌ c s) =
    let same_line = split_lines false s in
    let next_line = split_lines (code c == 13) s in
    if after_return && code c == 10
    then same_line
    else if ends_line (code c)
    then String.[] ∷ next_line
    else onto_first c same_line

unfoldable pub has_exact_marker : (text key : String) → Bool
unfolding split_lines any strip
has_exact_marker text key = any (λ line. strip line == key) (split_lines false text)

unfoldable pub checklist_status : World → List (String × Bool)
unfolding has_exact_marker
checklist_status w =
    map (λ key. (key, has_exact_marker (elim w.cert_text [ none ↦ "" | some text ↦ text ]) key))
      checklist_keys

unfoldable pub certifies : World → String → Bool
unfolding has_exact_marker checklist_required all
certifies w text =
    has_exact_marker text certified_key
    && (if checklist_required w then all (has_exact_marker text) checklist_keys else true)

unfoldable pub is_certified : World → Bool
unfolding certifies
is_certified w = elim w.cert_text [ none ↦ false | some text ↦ certifies w text ]

unfoldable pub require_live_mutation_allowed : World → Result ProductionError (Unit {0})
unfolding production_mode_enabled is_certified
require_live_mutation_allowed w =
    if production_mode_enabled w
    then (if is_certified w then ok tt else err not_certified)
    else ok tt
