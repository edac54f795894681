-- ===== src/Pipeline/Layers.antt =====
-- The order in which evidence builds on evidence, and what the writes and removals of a step do to it.
use Prim.Native.String.{String}
use Prim.Native.Char.{char, code}
use text.Mathlib.TextLemmas.{cons-append}
use oracle_patching.Prelude.{
  ℕ, nat_eq, ap, ◌<>◌, ◌≡◌, refl, sym, ◌∙◌, subst, ◌⊎◌, inl, inr, true, false, none, some, List, [],
  ◌∷◌, arith, ◌==◌, string_eq, if◌then◌else◌, any, Bool-cases, ||-eq-false, eq_iff, eq_refl,
}
use oracle_patching.Json.{Json}
use oracle_patching.World.{File, absent, doc, garbled, link, is_file, is_symlink}
use oracle_patching.Evidence.Store.{removable}

-- The evidence of one host.
abbrev pub Shelf : Type 0
Shelf = String → File

abbrev pub Has : Shelf → String → Type 0
Has f n = is_file (f n) ≡ true

abbrev pub EvaluatedOn : Shelf → Type 0
EvaluatedOn f =
    Has f "compatibility_reconciliation"
    × Has f "reconciliation"
    × Has f "procedure"
    × Has f "artifact"

abbrev pub ReconciledOn : Shelf → Type 0
ReconciledOn f = Has f "compatibility" × Has f "reconciliation" × Has f "procedure"

abbrev pub CollectedOn : Shelf → Type 0
CollectedOn f = Has f "snapshot" × Has f "artifact" × Has f "procedure"

-- A document is there only with those that it is built on, and nothing is a symbolic link.
pub record Layered (f : Shelf) : Type 0 where
  pub evaluated : Has f "readiness" → EvaluatedOn f
  pub agreed : Has f "compatibility_reconciliation" → ReconciledOn f
  pub collected : Has f "compatibility" → CollectedOn f
  pub validated : Has f "procedure" → Has f "artifact"
  pub unlinked : (n : String) → is_symlink (f n) ≡ false

pub no_truth : false ≡ true → ⊥
no_truth h = subst (λ b. elim b [ true ↦ ⊥ | false ↦ Unit {0} ]) h tt

-- A write of one document.
abbrev pub placed : String → Json → Shelf → Shelf
placed name payload f n = if n == name then doc payload else f n

module _ (name : String) (payload : Json) (f : Shelf) where
  pub Has-placed : (n : String) → Has f n → Has (placed name payload f) n
  unfolding is_file
  Has-placed n h = elim (Bool-cases (n == name)) [ inl e ↦ rw e refl | inr e ↦ rw e h ]

  pub Has-placed_self : Has (placed name payload f) name
  unfolding is_file
  Has-placed_self = rw (eq_refl name) refl

  placed-Has : (n : String) → Has (placed name payload f) n → ((n == name) ≡ true) ⊎ Has f n
  placed-Has n h = elim (Bool-cases (n == name)) [ inl e ↦ inl e | inr e ↦ inr (rw e at h) ]

  placed-unlinked :
      (n : String) → is_symlink (f n) ≡ false → is_symlink (placed name payload f n) ≡ false
  unfolding is_symlink
  placed-unlinked n h = elim (Bool-cases (n == name)) [ inl e ↦ rw e refl | inr e ↦ rw e h ]

  from_placed :
      {B : Type 0} (n : String)
      → ((n == name) ≡ true → B)
      → (Has f n → B)
      → Has (placed name payload f) n
      → B
  from_placed n a b h = elim (placed-Has n h) [ inl q ↦ a q | inr q ↦ b q ]

  -- A write keeps the order where what the written document is built on is there.
  pub Layered-placed :
      Layered f
      → (("readiness" == name) ≡ true → EvaluatedOn f)
      → (("compatibility_reconciliation" == name) ≡ true → ReconciledOn f)
      → (("compatibility" == name) ≡ true → CollectedOn f)
      → (("procedure" == name) ≡ true → Has f "artifact")
      → Layered (placed name payload f)
  Layered-placed l r c k v = record {
    evaluated = λ h.
        let (a, b, d, e) = from_placed "readiness" r l.evaluated h in
        (Has-placed _ a, Has-placed _ b, Has-placed _ d, Has-placed _ e);
    agreed = λ h.
        let (a, b, d) = from_placed "compatibility_reconciliation" c l.agreed h in
        (Has-placed _ a, Has-placed _ b, Has-placed _ d);
    collected = λ h.
        let (a, b, d) = from_placed "compatibility" k l.collected h in
        (Has-placed _ a, Has-placed _ b, Has-placed _ d);
    validated = λ h. Has-placed "artifact" (from_placed "procedure" v l.validated h);
    unlinked = λ n. placed-unlinked n (l.unlinked n);
  }

abbrev pub first_code : String → ℕ
first_code String.[] = 0
first_code (String.◌∷◌ c s) = code c

-- No evidence name that the order knows is a node's snapshot.
pub other_name : (n x : String) → (first_code n == 115) ≡ false → (n == ("snapshot_" <> x)) ≡ false
other_name n x h = elim (Bool-cases (n == ("snapshot_" <> x))) [
  | inl e ↦
      let same = ap first_code ((eq_iff n ("snapshot_" <> x)).0 e) in
      let starts : first_code ("snapshot_" <> x) ≡ 115 =
        ap first_code (cons-append (char 115 tt) "napshot_" x) in
      absurd (no_truth (sym h ∙ (ground (arith, same, starts))))
  | inr e ↦ e
]

-- What is left after a removal of some names from a shelf.
pub record Removed (names : List String) (f g : Shelf) : Type 0 where
  pub kept : (n : String) → any (λ m. n == m) names ≡ false → g n ≡ f n
  pub gone :
      (n : String)
      → any (λ m. n == m) names ≡ true
      → is_symlink (f n) ≡ false
      → is_file (g n) ≡ false
  pub still_gone : (n : String) → is_file (f n) ≡ false → is_file (g n) ≡ false
  pub unlinked : (n : String) → is_symlink (f n) ≡ false → is_symlink (g n) ≡ false

-- One removal, which leaves a link where it is.
abbrev pub without : String → Shelf → Shelf
without name f n = if n == name then (if removable (f n) then absent else f n) else f n

pub Removed-nil : (f : Shelf) → Removed [] f f
unfolding any
Removed-nil f = record {
  kept = λ n h. refl;
  gone = λ n h u. absurd (no_truth h);
  still_gone = λ n h. h;
  unlinked = λ n u. u;
}

cut_file : (x : File) → is_symlink x ≡ false → is_file (if removable x then absent else x) ≡ false
unfolding removable is_file is_symlink
cut_file absent u = refl
cut_file (doc j) u = refl
cut_file garbled u = refl
cut_file (link t) u = absurd (no_truth (sym u))

cut_unlinked :
    (x : File) → is_symlink x ≡ false → is_symlink (if removable x then absent else x) ≡ false
unfolding removable is_file is_symlink
cut_unlinked absent u = refl
cut_unlinked (doc j) u = refl
cut_unlinked garbled u = refl
cut_unlinked (link t) u = absurd (no_truth (sym u))

cut_no_file : (x : File) → is_file x ≡ false → is_file (if removable x then absent else x) ≡ false
unfolding removable is_file is_symlink
cut_no_file absent u = refl
cut_no_file (doc j) u = absurd (no_truth (sym u))
cut_no_file garbled u = refl
cut_no_file (link none) u = refl
cut_no_file (link (some j)) u = absurd (no_truth (sym u))

-- A removal, and then those of a shelf.
pub Removed-cons :
    (name : String) (names : List String) (f g : Shelf)
    → Removed names (without name f) g
    → Removed (name ∷ names) f g
unfolding any
Removed-cons name names f g r = record {
  kept = λ n h.
      let (other, rest) = ||-eq-false (n == name) (any (λ m. n == m) names) h in
      r.kept n rest ∙ rw other refl;
  gone = λ n h u. elim (Bool-cases (n == name)) [
    | inl e ↦ r.still_gone n (rw e (cut_file (f n) u))
    | inr other ↦ r.gone n (rw other at h) (rw other u)
  ];
  still_gone = λ n h. r.still_gone n (elim (Bool-cases (n == name)) [
    | inl e ↦ rw e (cut_no_file (f n) h)
    | inr other ↦ rw other h
  ]);
  unlinked = λ n u. r.unlinked n (elim (Bool-cases (n == name)) [
    | inl e ↦ rw e (cut_unlinked (f n) u)
    | inr other ↦ rw other u
  ]);
}
