-- ===== src/Pipeline/Writes.antt =====
-- What a write and a sequence of removals do to the evidence of a host, as rules.
use mathlib.Core.Path.{fun_ext}
use Prim.Native.String.{String}
use oracle_patching.Prelude.{
  ◌≡◌, refl, sym, ◌∙◌, subst, inl, inr, Bool, true, false, not, ◌&&◌, List, [], ◌∷◌, arith, ◌==◌,
  string_eq, all, Bool-cases, &&-eq-true, eq_iff, eq_refl,
}
use oracle_patching.Exec.{
  Result, ok, err, pure, gets, modify, ensure, ensure-true, ◌>>=◌, >>=-ok, >>=-err,
}
use oracle_patching.Exec.Triple.{Triple, Meets, Triple-bind, Triple-modify}
use oracle_patching.Json.{Json}
use oracle_patching.World.{doc, set_file, World, Error}
use oracle_patching.World.Quiet.{Triple-Quiet, Quiet-ensure, Quiet-gets}
use oracle_patching.Evidence.Store.{
  is_id, validate_host_id, validate_evidence_name, evidence_dir, write_evidence, removable, cleared,
  clear_evidence,
}
use oracle_patching.Pipeline.Targets.{Env}
use oracle_patching.Pipeline.Collect.{clear_all}
use oracle_patching.Pipeline.Reads.{evidence_dir-Quiet}
use oracle_patching.Pipeline.Layers.{Shelf, placed, without, Removed, Removed-nil, Removed-cons}

-- A condition on the evidence of a host.
abbrev pub On : String → (Shelf → Type 0) → World → Type 0
On host_id P w = P (w.files host_id)

module _ (host_id : String) where
  set_file-placed :
      (name : String) (p : Json) (w : World)
      → set_file host_id name (doc p) w.files host_id ≡ placed name p (w.files host_id)
  unfolding set_file
  set_file-placed name p w = fun_ext λ n. rw (eq_refl host_id) refl

  cleared-without :
      (name : String) (w : World)
      → (cleared host_id name w).files host_id ≡ without name (w.files host_id)
  unfolding cleared set_file
  cleared-without name w = fun_ext λ n. go n
    where
      go :
          (n : String) → (cleared host_id name w).files host_id n ≡ without name (w.files host_id) n
      go n = elim (Bool-cases (n == name)) [
        | inl e ↦ ground (arith, eq_refl host_id, (eq_iff n name).0 e)
        | inr other ↦ ground (arith, eq_refl host_id)
      ]

ensure-false : (b : Bool) (e : Error) (w : World) → b ≡ false → ensure b e w ≡ (err e, w)
unfolding ensure
ensure-false b e w h = rw h refl

module _ (env : oracle_patching.Evidence.Store.Env) (host_id : String) where
  evidence_dir-valid :
      (w : World)
      → is_id host_id ≡ true
      → env.escapes host_id ≡ false
      → evidence_dir env host_id w ≡ (ok tt, w)
  unfolding evidence_dir validate_host_id
  evidence_dir-valid w a b =
      >>=-ok (validate_host_id env host_id) _ w tt w (ensure-true (is_id host_id) _ w a)
      ∙ ensure-true (not (env.escapes host_id)) _ w (rw b refl)

  evidence_dir-invalid :
      (w : World)
      → (is_id host_id && not (env.escapes host_id)) ≡ false
      → (e : Error) × (evidence_dir env host_id w ≡ (err e, w))
  unfolding evidence_dir validate_host_id
  evidence_dir-invalid w h = elim (Bool-cases (is_id host_id)) [
    | inl a ↦ (
      _,
      >>=-ok (validate_host_id env host_id) _ w tt w (ensure-true (is_id host_id) _ w a)
          ∙ ensure-false (not (env.escapes host_id)) _ w (rw a at h),
    )
    | inr a ↦ (_, >>=-err (validate_host_id env host_id) _ w (ensure-false (is_id host_id) _ w a))
  ]

  clear_evidence-valid :
      (name : String) (w : World)
      → is_id name ≡ true
      → evidence_dir env host_id w ≡ (ok tt, w)
      → clear_evidence env host_id name w
        ≡ (ok (removable (w.files host_id name)), cleared host_id name w)
  unfolding clear_evidence validate_evidence_name ◌>>=◌ gets modify pure
  clear_evidence-valid name w a d =
      >>=-ok (validate_evidence_name env name) _ w tt w (ensure-true (is_id name) _ w a)
      ∙ >>=-ok (evidence_dir env host_id) _ w tt w d

  -- The removals, one after the other.
  cleared_all : List String → World → World
  cleared_all [] w = w
  cleared_all (n ∷ ns) w = cleared_all ns (cleared host_id n w)

  cleared_all-Removed :
      (names : List String) (w : World)
      → Removed names (w.files host_id) ((cleared_all names w).files host_id)
  unfolding cleared_all
  cleared_all-Removed [] w = Removed-nil _
  cleared_all-Removed (n ∷ ns) w = Removed-cons n ns (w.files host_id) _ (
      subst (λ f. Removed ns f ((cleared_all ns (cleared host_id n w)).files host_id))
        (cleared-without host_id n w) (cleared_all-Removed ns (cleared host_id n w)))

module _ (env : Env) (host_id : String) where
  clear_all-valid :
      (names : List String) (w : World)
      → is_id host_id ≡ true
      → env.evidence.escapes host_id ≡ false
      → all is_id names ≡ true
      → clear_all env host_id names w ≡ (ok tt, cleared_all env.evidence host_id names w)
  unfolding clear_all cleared_all all pure
  clear_all-valid [] w a b ids = refl
  clear_all-valid (n ∷ ns) w a b ids =
      let (now, later) = &&-eq-true _ _ ids in
      >>=-ok (clear_evidence env.evidence host_id n) _ w _ _ (
        clear_evidence-valid env.evidence host_id n w now
          (evidence_dir-valid env.evidence host_id w a b))
      ∙ clear_all-valid ns (cleared host_id n w) a b later

  clear_evidence-invalid :
      (n : String) (w : World)
      → is_id n ≡ true
      → (is_id host_id && not (env.evidence.escapes host_id)) ≡ false
      → (e : Error) × (clear_evidence env.evidence host_id n w ≡ (err e, w))
  unfolding clear_evidence validate_evidence_name
  clear_evidence-invalid n w a bad =
      let (e, h) = evidence_dir-invalid env.evidence host_id w bad in
      (
        e,
        >>=-ok (validate_evidence_name env.evidence n) _ w tt w (ensure-true (is_id n) _ w a)
            ∙ >>=-err (evidence_dir env.evidence host_id) _ w h,
      )

  not-true : (b : Bool) → not b ≡ true → b ≡ false
  not-true true h = cc
  not-true false h = refl

  module _ (P Q : Shelf → Type 0) where
    Cleared : Result Error (Unit {0}) × World → Type 0
    Cleared = Meets (λ (_ : Unit {0}). On host_id Q) (On host_id P)

    clear_all-refused :
        (ns : List String) (w : World)
        → (is_id host_id && not (env.evidence.escapes host_id)) ≡ false
        → all is_id ns ≡ true
        → ((f g : Shelf) → P f → Removed ns f g → Q g)
        → On host_id P w
        → Cleared (clear_all env host_id ns w)
    unfolding Cleared clear_all all pure
    clear_all-refused [] w bad ids step p = step _ _ p (Removed-nil _)
    clear_all-refused (n ∷ ns) w bad ids step p =
        let (now, later) = &&-eq-true (is_id n) (all is_id ns) ids in
        let (e, h) = clear_evidence-invalid n w now bad in
        subst Cleared (sym (>>=-err (clear_evidence env.evidence host_id n) _ w h)) p

    -- Removals of fixed names either fail before the first of them or are all made.
    pub Triple-clear_all :
        (names : List String)
        → all is_id names ≡ true
        → ((f g : Shelf) → P f → Removed names f g → Q g)
        → Triple (On host_id P) (clear_all env host_id names) (λ _. On host_id Q) (On host_id P)
    unfolding Cleared
    Triple-clear_all names ids step = record {
      at = λ w p. elim (Bool-cases (is_id host_id && not (env.evidence.escapes host_id))) [
        | inr bad ↦ clear_all-refused names w bad ids step p
        | inl good ↦
            let (a, b) = &&-eq-true (is_id host_id) (not (env.evidence.escapes host_id)) good in
            subst Cleared (sym (clear_all-valid names w a (not-true _ b) ids))
              (step _ _ p (cleared_all-Removed env.evidence host_id names w))
      ];
    }

    -- A write puts one document in its place, or changes nothing.
    pub Triple-write :
        (name : String) (payload : Json)
        → ((f : Shelf) → P f → Q (placed name payload f))
        → Triple
            (On host_id P)
            (write_evidence env.evidence host_id name payload)
            (λ _. On host_id Q)
            (On host_id P)
    unfolding write_evidence validate_evidence_name
    Triple-write name payload step =
        Triple-bind (λ _. On host_id P) _ _
          (Triple-Quiet (λ fs. P (fs host_id)) _ (Quiet-ensure _ _))
          λ _.
            Triple-bind (λ _. On host_id P) _ _
              (Triple-Quiet (λ fs. P (fs host_id)) _ (evidence_dir-Quiet env.evidence host_id))
              λ _.
                Triple-bind (λ _. On host_id P) _ _
                  (Triple-Quiet (λ fs. P (fs host_id)) _ (Quiet-gets _))
                  λ allowed.
                    Triple-bind (λ _. On host_id P) _ _
                      (Triple-Quiet (λ fs. P (fs host_id)) _ (Quiet-ensure _ _))
                      λ _. Triple-modify _ λ w p.
                        subst Q (sym (set_file-placed host_id name payload w))
                          (step (w.files host_id) p)
