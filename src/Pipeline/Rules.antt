-- ===== src/Pipeline/Rules.antt =====
-- Rules for what a step keeps: the part that only reads, the check that a document is there, and the
-- write of one. A step that raises leaves the evidence in order too.
use Prim.Native.String.{String}
use oracle_patching.Prelude.{◌≡◌, refl, sym, ◌∙◌, true, false, List, ◌==◌, string_eq, any, all}
use oracle_patching.Exec.{◌>>=◌}
use oracle_patching.Exec.Triple.{Triple, Triple-bind, Triple-weaken, Triple-gets, Triple-ensure}
use oracle_patching.Json.{Json}
use oracle_patching.World.{Action, is_file}
use oracle_patching.World.Quiet.{Quiet, Triple-Quiet}
use oracle_patching.Evidence.Store.{is_id, has_evidence, write_evidence}
use oracle_patching.Pipeline.Targets.{Env, require}
use oracle_patching.Pipeline.Collect.{clear_all}
use oracle_patching.Pipeline.Reads.{evidence_dir-Quiet}
use oracle_patching.Pipeline.Layers.{
  Shelf, Has, Layered, CollectedOn, placed, Layered-placed, Removed, no_truth,
}
use oracle_patching.Pipeline.Writes.{On, Triple-clear_all, Triple-write}

module _ (env : Env) (host_id : String) where
  -- A step from evidence with `P` leaves it in order.
  abbrev pub Orderly : (Shelf → Type 0) → {A : Type 0} → Action A → Type 0
  Orderly P m = Triple (On host_id P) m (λ _. On host_id Layered) (On host_id Layered)

  module _ {P : Shelf → Type 0} (in_order : (f : Shelf) → P f → Layered f) where
    pub read_then :
        {A B : Type 0} (m : Action A) (k : A → Action B)
        → Quiet m
        → ((a : A) → Orderly P (k a))
        → Orderly P (m >>= k)
    read_then m k q rest =
        Triple-bind (λ _. On host_id P) m k
          (Triple-weaken m (Triple-Quiet (λ fs. P (fs host_id)) m q) (λ w p. p) (λ a w p. p)
            (λ w p. in_order (w.files host_id) p))
          rest

    pub read_last : {A : Type 0} (m : Action A) → Quiet m → Orderly P m
    read_last m q =
        Triple-weaken m (Triple-Quiet (λ fs. P (fs host_id)) m q) (λ w p. p)
          (λ a w p. in_order (w.files host_id) p) (λ w p. in_order (w.files host_id) p)

    require-Has :
        (n tool label : String)
        → Triple
            (On host_id P)
            (require env host_id n tool label)
            (λ _. On host_id (λ f. P f × Has f n))
            (On host_id P)
    unfolding require has_evidence
    require-Has n tool label =
        Triple-bind (λ there w. On host_id P w × (there ≡ is_file (w.files host_id n))) _ _
          (Triple-bind (λ _. On host_id P) _ _
            (Triple-Quiet (λ fs. P (fs host_id)) _ (evidence_dir-Quiet env.evidence host_id))
            (λ _. Triple-gets _ λ w p. (p, refl)))
          λ there.
            Triple-weaken _
              (Triple-ensure {P = λ w. On host_id P w × (there ≡ is_file (w.files host_id n))}
                {R = On host_id P} there _ (λ found w q. (q.0, sym q.1 ∙ found)) (λ w q. q.0))
              (λ w q. q) (λ _ w q. q) (λ w q. q)

    pub require_then :
        {B : Type 0} (n tool label : String) (k : Unit {0} → Action B)
        → ((u : Unit {0}) → Orderly (λ f. P f × Has f n) (k u))
        → Orderly P (require env host_id n tool label >>= k)
    require_then n tool label k rest =
        Triple-bind (λ _. On host_id (λ f. P f × Has f n)) _ k
          (Triple-weaken _ (require-Has n tool label) (λ w p. p) (λ a w p. p)
            (λ w p. in_order (w.files host_id) p))
          rest

    pub write_then :
        {B : Type 0} (Q : Shelf → Type 0) (name : String) (payload : Json) (k : Unit {0} → Action B)
        → ((f : Shelf) → P f → Q (placed name payload f))
        → ((u : Unit {0}) → Orderly Q (k u))
        → Orderly P (write_evidence env.evidence host_id name payload >>= k)
    write_then Q name payload k step rest =
        Triple-bind (λ _. On host_id Q) _ k
          (Triple-weaken _ (Triple-write env host_id P Q name payload step) (λ w p. p) (λ a w p. p)
            (λ w p. in_order (w.files host_id) p))
          rest

    pub clear_then :
        {B : Type 0} (Q : Shelf → Type 0) (names : List String) (k : Unit {0} → Action B)
        → all is_id names ≡ true
        → ((f g : Shelf) → P f → Removed names f g → Q g)
        → ((u : Unit {0}) → Orderly Q (k u))
        → Orderly P (clear_all env host_id names >>= k)
    clear_then Q names k ids step rest =
        Triple-bind (λ _. On host_id Q) _ k
          (Triple-weaken _ (Triple-clear_all env host_id P Q names ids step) (λ w p. p) (λ a w p. p)
            (λ w p. in_order (w.files host_id) p))
          rest

-- A write of a document that the order does not ask about.
pub placed-other :
    (name : String) (p : Json) (f : Shelf)
    → ("readiness" == name) ≡ false
    → ("compatibility_reconciliation" == name) ≡ false
    → ("compatibility" == name) ≡ false
    → ("procedure" == name) ≡ false
    → Layered f
    → Layered (placed name p f)
placed-other name p f a b c d l =
    Layered-placed name p f l (λ h. absurd (no_truth (sym a ∙ h)))
      (λ h. absurd (no_truth (sym b ∙ h))) (λ h. absurd (no_truth (sym c ∙ h)))
      (λ h. absurd (no_truth (sym d ∙ h)))

module _ {names : List String} (f g : Shelf) (l : Layered f) (r : Removed names f g) where
  pub cut : (n : String) {B : Type 0} → any (λ m. n == m) names ≡ true → Has g n → B
  cut n h there = absurd (no_truth (sym (r.gone n h (l.unlinked n)) ∙ there))

  pub kept_there : (n : String) → any (λ m. n == m) names ≡ false → Has f n → Has g n
  kept_there n h there = rw (r.kept n h) there

  pub kept_back : (n : String) → any (λ m. n == m) names ≡ false → Has g n → Has f n
  kept_back n h there = rw (r.kept n h) at there

  -- The removal of a document with all that is built on it.
  pub Removed-upper :
      any (λ m. "readiness" == m) names ≡ true
      → any (λ m. "compatibility_reconciliation" == m) names ≡ true
      → (Has g "compatibility" → CollectedOn g)
      → (Has g "procedure" → Has g "artifact")
      → Layered g
  Removed-upper a b c d = record {
    evaluated = cut "readiness" a;
    agreed = cut "compatibility_reconciliation" b;
    collected = c;
    validated = d;
    unlinked = λ n. r.unlinked n (l.unlinked n);
  }
