-- ===== src/Production/Certificate.antt =====
-- What a certificate must hold for live mutation in production mode.
use Prim.Native.String.{String}
use mathlib.Core.List.{Memᴰ}
use oracle_patching.Prelude.{
  ◌≡◌, refl, true, false, some, List, [], ◌∷◌, eq_iff, ◌==◌, string_eq, Bool-cases, Option-cases,
  inl, inr, any, all-eq-true, &&-eq-true,
}
use oracle_patching.Prelude.Text.{strip}
use oracle_patching.Exec.{ok}
use oracle_patching.Production.{
  World, production_mode_enabled, checklist_required, certified_key, checklist_keys, split_lines,
  has_exact_marker, certifies, is_certified, require_live_mutation_allowed,
}

-- A line of the text is the key, but for space around it.
abbrev pub Marked : (text key : String) → Type 0
Marked text key = (line : String) × Memᴰ line (split_lines false text) × (strip line ≡ key)

find_line :
    (lines : List String) (key : String)
    → any (λ line. strip line == key) lines ≡ true
    → (line : String) × Memᴰ line lines × (strip line ≡ key)
unfolding any
find_line [] key h = cc
find_line (l ∷ ls) key h = elim (Bool-cases (strip l == key)) [
  | inl t ↦ (l, Memᴰ.head refl, (eq_iff _ _).0 t)
  | inr f ↦ let (x, m, e) = find_line ls key (rw f at h) in (x, Memᴰ.tail m, e)
]

has_exact_marker-Marked : (text key : String) → has_exact_marker text key ≡ true → Marked text key
unfolding has_exact_marker
has_exact_marker-Marked text key h = find_line (split_lines false text) key h

certifies-Marked :
    (w : World) (text : String)
    → certifies w text ≡ true
    → Marked text certified_key
      × (checklist_required w ≡ true → (key : String) → Memᴰ key checklist_keys → Marked text key)
unfolding certifies
certifies-Marked w text h =
    let (first, rest) = &&-eq-true (has_exact_marker text certified_key) _ h in
    (
      has_exact_marker-Marked text certified_key first,
      λ required key m.
          has_exact_marker-Marked text key
            (all-eq-true (has_exact_marker text) checklist_keys key (rw required at rest) m),
    )

-- In production mode live mutation is allowed only with a certificate that has the certification line,
-- and every line of the checklist where the checklist is required.
pub allowed-Marked :
    (w : World)
    → production_mode_enabled w ≡ true
    → require_live_mutation_allowed w ≡ ok tt
    → (text : String) × (w.cert_text ≡ some text)
      × Marked text certified_key
      × (checklist_required w ≡ true → (key : String) → Memᴰ key checklist_keys → Marked text key)
unfolding require_live_mutation_allowed is_certified
allowed-Marked w mode h = elim (Option-cases w.cert_text) [
  | inl e ↦ absurd (cc (rw (mode, e) at h))
  | inr (text, e) ↦ elim (Bool-cases (certifies w text)) [
    | inl t ↦ let (a, b) = certifies-Marked w text t in (text, e, a, b)
    | inr f ↦ absurd (cc (rw (mode, e, f) at h))
  ]
]
