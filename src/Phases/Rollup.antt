-- ===== src/Phases/Rollup.antt =====
-- What the rollup of the phases says: a snapshot whose badge is "pass" has the evidence that the
-- later steps need.
use mathlib.Core.List.{Memᴰ}
use oracle_patching.Prelude.{
  String, ◌≡◌, refl, sym, ◌∙◌, eq_iff, subst, ◌↔◌, inl, inr, true, false, ◌||◌, List, [], ◌∷◌, ◌==◌,
  string_eq, if◌then◌else◌, is_nil, any, all, Bool-cases, &&-eq-true,
}
use oracle_patching.Exec.{Result, ok, and_then, and_then-eq-ok, ok_inj}
use oracle_patching.Json.{Json, get, is_dict}
use oracle_patching.Phases.Values.{Fault, some_list}
use oracle_patching.Phases.Defs.{Phase}
use oracle_patching.Phases.Host.{host_identity, oracle_homes, patch_inventory}
use oracle_patching.Phases.Cluster.{cluster, databases}
use oracle_patching.Phases.Derive.{
  evaluate, derive_discovery_phases, any_has_status, discovery_phases_rollup,
}
use oracle_patching.Phases.Passed.{
  is_good, no_truth, Identified, host_identity-Identified, AllOwned, oracle_homes-AllOwned,
  Collected, patch_inventory-Collected,
}
use oracle_patching.Phases.Runtimes.{Running, databases-Running}

-- The order in which the rollup asks.
worst_first : (ps : List Phase) → String
worst_first ps =
    if any_has_status "fail" ps
    then "fail"
    else if any_has_status "unavailable" ps
    then "partial"
    else if any_has_status "partial" ps
    then "partial"
    else if all is_good ps
    then "pass"
    else "partial"

worst_first-pass : (ps : List Phase) → worst_first ps ≡ "pass" → all is_good ps ≡ true
unfolding worst_first
worst_first-pass ps h = elim (Bool-cases (any_has_status "fail" ps)) [
  | inl e ↦ let bad = rw e at h in absurd (no_truth ((eq_iff "fail" "pass").1 bad))
  | inr f ↦
      let h1 = rw f at h in
      elim (Bool-cases (any_has_status "unavailable" ps)) [
        | inl e ↦ let bad = rw e at h1 in absurd (no_truth ((eq_iff "partial" "pass").1 bad))
        | inr u ↦
            let h2 = rw u at h1 in
            elim (Bool-cases (any_has_status "partial" ps)) [
              | inl e ↦ let bad = rw e at h2 in absurd (no_truth ((eq_iff "partial" "pass").1 bad))
              | inr p ↦
                  let h3 = rw p at h2 in
                  elim (Bool-cases (all is_good ps)) [
                    | inl good ↦ good
                    | inr e ↦
                        let bad = rw e at h3 in absurd (no_truth ((eq_iff "partial" "pass").1 bad))
                  ]
            ]
      ]
]

good-ne :
    (w : String) (p : Phase)
    → (w == "pass" || w == "not_applicable") ≡ false
    → is_good p ≡ true
    → (p.status == w) ≡ false
good-ne w p h good = elim (Bool-cases (p.status == w)) [
  | inl e ↦
      let same = (eq_iff p.status w).0 e in
      absurd
        (no_truth (sym h ∙ subst (λ s. (s == "pass" || s == "not_applicable") ≡ true) same good))
  | inr n ↦ n
]

has_status-good :
    (w : String) (ps : List Phase)
    → (w == "pass" || w == "not_applicable") ≡ false
    → all is_good ps ≡ true
    → any_has_status w ps ≡ false
unfolding any_has_status any all
has_status-good w [] h good = refl
has_status-good w (p ∷ ps) h good =
    let (now, later) = &&-eq-true _ _ good in rw (good-ne w p h now) (has_status-good w ps h later)

pass-worst_first : (ps : List Phase) → all is_good ps ≡ true → worst_first ps ≡ "pass"
unfolding worst_first
pass-worst_first ps good =
    rw
      (
        has_status-good "fail" ps refl good,
        has_status-good "unavailable" ps refl good,
        has_status-good "partial" ps refl good,
        good,
      )
      refl

-- The rollup is "pass" exactly where there is a phase and each of them passed or does not apply.
pub rollup-pass_iff :
    (ps : List Phase)
    → (discovery_phases_rollup ps ≡ "pass") ↔ ((is_nil ps ≡ false) × (all is_good ps ≡ true))
unfolding discovery_phases_rollup worst_first is_nil
rollup-pass_iff [] =
    (λ h. absurd (no_truth ((eq_iff "unavailable" "pass").1 h)), λ h. absurd (no_truth (sym h.0)))
rollup-pass_iff (p ∷ ps) =
    (λ h. (refl, worst_first-pass (p ∷ ps) h), λ h. pass-worst_first (p ∷ ps) h.1)

-- What a passed badge promises.
pub record Usable (show : Json → String) (snapshot : Json) : Type 0 where
  pub identified : Identified snapshot
  pub homes : AllOwned snapshot
  pub inventoried : (v : Json) → Memᴰ v (some_list (get "oracle_homes" snapshot)) → Collected show v
  pub running : (v : Json) → Memᴰ v (some_list (get "databases" snapshot)) → Running show v

evaluate-Usable :
    (show : Json → String) (snapshot : Json) (ps : List Phase)
    → evaluate show snapshot ≡ ok ps
    → all is_good ps ≡ true
    → Usable show snapshot
unfolding evaluate all
evaluate-Usable show snapshot ps h good =
    let four = λ (a b c d : Phase).
      and_then (patch_inventory show snapshot)
        λ e. let r : Result Fault (List Phase) = ok (a ∷ b ∷ c ∷ d ∷ e ∷ []) in r in
    let three = λ (a b c : Phase). and_then (databases show snapshot) (four a b c) in
    let two = λ (a b : Phase). and_then (cluster show snapshot) (three a b) in
    let one = λ (a : Phase). and_then (oracle_homes show snapshot) (two a) in
    let (a, ea, h1) = and_then-eq-ok (host_identity show snapshot) one h in
    let (b, eb, h2) = and_then-eq-ok (oracle_homes show snapshot) (two a) h1 in
    let (c, ec, h3) = and_then-eq-ok (cluster show snapshot) (three a b) h2 in
    let (d, ed, h4) = and_then-eq-ok (databases show snapshot) (four a b c) h3 in
    let (e, ee, h5) =
      and_then-eq-ok (patch_inventory show snapshot) (λ e. ok (a ∷ b ∷ c ∷ d ∷ e ∷ [])) h4 in
    let goods = subst (λ xs. all is_good xs ≡ true) (sym (ok_inj _ _ h5)) good in
    let (ga, g1) = &&-eq-true (is_good a) (all is_good (b ∷ c ∷ d ∷ e ∷ [])) goods in
    let (gb, g2) = &&-eq-true (is_good b) (all is_good (c ∷ d ∷ e ∷ [])) g1 in
    let (gc, g3) = &&-eq-true (is_good c) (all is_good (d ∷ e ∷ [])) g2 in
    let (gd, g4) = &&-eq-true (is_good d) (all is_good (e ∷ [])) g3 in
    let (ge, g5) = &&-eq-true (is_good e) true g4 in
    let owned = oracle_homes-AllOwned show snapshot b eb gb in
    record {
      identified = host_identity-Identified show snapshot a ea ga;
      homes = owned;
      inventoried = λ v m. patch_inventory-Collected show snapshot e v ee ge owned.some_home m;
      running = λ v m. databases-Running show snapshot d v ed gd m;
    }

-- Where the phases of a snapshot roll up to "pass", the snapshot is an object that names its host,
-- the system and the kernel, it lists Oracle homes, each with an owner, the version of its OPatch and
-- complete platform evidence from the OPatch inventory, and each listed database names its home and
-- has a complete runtime.
pub derive-Usable :
    (show : Json → String) (snapshot : Json) (ps : List Phase)
    → derive_discovery_phases show snapshot ≡ ok ps
    → discovery_phases_rollup ps ≡ "pass"
    → (is_dict snapshot ≡ true) × Usable show snapshot
unfolding derive_discovery_phases all
derive-Usable show snapshot ps h passed = elim (Bool-cases (is_dict snapshot)) [
  | inl d ↦ (d, evaluate-Usable show snapshot ps (rw d at h) ((rollup-pass_iff ps).0 passed).1)
  | inr n ↦
      let placeholders = ok_inj _ _ (rw n at h) in
      let bad =
        subst (λ xs. all is_good xs ≡ true) (sym placeholders) ((rollup-pass_iff ps).0 passed).1 in
      absurd (no_truth bad)
]
