-- ===== src/Phases/Passed.antt =====
-- What a phase that passed says of the snapshot, phase by phase.
use mathlib.Core.List.{Memᴰ}
use oracle_patching.Prelude.{
  ℕ, suc, ◌≤◌, String, ◌≡◌, refl, sym, ap, subst, inl, inr, Bool, true, false, ◌&&◌, ◌||◌, List, [],
  ◌∷◌, arith, not, mem-cases, ◌==◌, ◌!=◌, string_eq, nat_eq, length, take, is_nil, Bool-cases,
}
use oracle_patching.Exec.{Result, ok, and_then, and_then-eq-ok, ok_inj}
use oracle_patching.Json.{Json, get}
use oracle_patching.Phases.Values.{
  Fault, dict_or_empty, stripped, dict_or_fault, says, some_list, as_texts,
}
use oracle_patching.Phases.Defs.{Phase}
use oracle_patching.Phases.Host.{
  Home, read_home, read_homes, missing_owner, missing_opatch, homes_phase, owner_missing,
  opatch_missing, with_version, oracle_homes, host_phase, host_identity, Platform, collected,
  is_complete, platform_of, Tally, count_platform, tally, size, inventory_phase, patch_inventory,
}

pub no_truth : false ≡ true → ⊥
no_truth h = subst (λ b. elim b [ true ↦ ⊥ | false ↦ Unit {0} ]) h tt

-- A status that does not keep the rollup from passing.
abbrev pub is_good : Phase → Bool
is_good p = p.status == "pass" || p.status == "not_applicable"

-- The host names itself, its system and its kernel.
pub record Identified (snapshot : Json) : Type 0 where
  pub host : Json
  pub name : String
  pub os_name : String
  pub kernel : String
  pub host_of : dict_or_empty (get "host" snapshot) ≡ ok host
  pub name_of : stripped (get "name" host) ≡ ok name
  pub os_of : stripped (get "os" host) ≡ ok os_name
  pub kernel_of : stripped (get "kernel" host) ≡ ok kernel
  pub named : ((name == "") ≡ false) × ((os_name == "") ≡ false) × ((kernel == "") ≡ false)

host_phase-good :
    (n o k c : String)
    → is_good (host_phase n o k c) ≡ true
    → ((n == "") ≡ false) × ((o == "") ≡ false) × ((k == "") ≡ false)
unfolding host_phase
host_phase-good n o k c h = elim (Bool-cases (n == "")) [
  | inl e ↦ let bad = rw e at h in (cc, cc, cc)
  | inr named ↦
      let h1 = rw named at h in
      elim (Bool-cases (not (o == "") && not (k == ""))) [
        | inl both ↦ ground arith
        | inr e ↦ let bad = rw e at h1 in (cc, cc, cc)
      ]
]

pub host_identity-Identified :
    (show : Json → String) (snapshot : Json) (p : Phase)
    → host_identity show snapshot ≡ ok p
    → is_good p ≡ true
    → Identified snapshot
unfolding host_identity
host_identity-Identified show snapshot p h good =
    let (host, e1, h1) = and_then-eq-ok _ _ h in
    let (name, e2, h2) = and_then-eq-ok _ _ h1 in
    let (os_name, e3, h3) = and_then-eq-ok _ _ h2 in
    let (kernel, e4, h4) = and_then-eq-ok _ _ h3 in
    record {
      host = host;
      name = name;
      os_name = os_name;
      kernel = kernel;
      host_of = e1;
      name_of = e2;
      os_of = e3;
      kernel_of = e4;
      named =
          host_phase-good name os_name kernel _
            (subst (λ (q : Phase). is_good q ≡ true) (sym (ok_inj _ _ h4)) good);
    }

-- A home that names its owner and the version of its OPatch.
pub record Owned (v : Json) : Type 0 where
  pub home : Home
  pub home_of : read_home v ≡ ok home
  pub owner : (home.owner == "") ≡ false
  pub opatch : (home.opatch_version == "") ≡ false

homes_phase-good :
    (show : Json → String) (homes owners opatch : List Json) (p : Phase)
    → homes_phase show homes owners opatch ≡ ok p
    → is_good p ≡ true
    → (owners ≡ []) × (opatch ≡ [])
unfolding homes_phase opatch_missing owner_missing
homes_phase-good show homes (o ∷ owners) opatch p h good =
    let (names, e, h') =
      and_then-eq-ok (as_texts (take 4 (o ∷ owners)))
        (λ names. ok (owner_missing homes (o ∷ owners) names)) h in
    let bad = subst (λ (q : Phase). is_good q ≡ true) (sym (ok_inj _ _ h')) good in (cc, cc)
homes_phase-good show homes [] (o ∷ opatch) p h good =
    let (versions, e, h') =
      and_then-eq-ok (with_version homes)
        (λ n.
          and_then (as_texts (take 4 (o ∷ opatch)))
            λ names. ok (opatch_missing homes (o ∷ opatch) names))
        h in
    let (names, e', h2) =
      and_then-eq-ok (as_texts (take 4 (o ∷ opatch)))
        (λ names. ok (opatch_missing homes (o ∷ opatch) names)) h' in
    let bad = subst (λ (q : Phase). is_good q ≡ true) (sym (ok_inj _ _ h2)) good in (cc, cc)
homes_phase-good show homes [] [] p h good = (refl, refl)

read_homes-cons :
    (w : Json) (ws : List Json) (hs : List Home)
    → read_homes (w ∷ ws) ≡ ok hs
    → (h : Home) × (rest : List Home) × (read_home w ≡ ok h)
      × (read_homes ws ≡ ok rest)
      × (hs ≡ h ∷ rest)
unfolding read_homes
read_homes-cons w ws hs e =
    let (h, eh, e1) =
      and_then-eq-ok (read_home w) (λ h. and_then (read_homes ws) λ hs. ok (h ∷ hs)) e in
    let (rest, er, e2) = and_then-eq-ok (read_homes ws) (λ hs. ok (h ∷ hs)) e1 in
    (h, rest, eh, er, sym (ok_inj _ _ e2))

missing_owner-cons :
    (h : Home) (hs : List Home)
    → missing_owner (h ∷ hs) ≡ []
    → ((h.owner == "") ≡ false) × (missing_owner hs ≡ [])
unfolding missing_owner
missing_owner-cons h hs e = ground arith

missing_opatch-cons :
    (h : Home) (hs : List Home)
    → missing_opatch (h ∷ hs) ≡ []
    → ((h.opatch_version == "") ≡ false) × (missing_opatch hs ≡ [])
unfolding missing_opatch
missing_opatch-cons h hs e = ground arith

read_homes-Owned :
    (vs : List Json) (hs : List Home) (v : Json)
    → read_homes vs ≡ ok hs
    → missing_owner hs ≡ []
    → missing_opatch hs ≡ []
    → Memᴰ v vs
    → Owned v
read_homes-Owned [] hs v e own opa m = elim m [ ]
read_homes-Owned (w ∷ ws) hs v e own opa m =
    let (h, rest, eh, er, same) = read_homes-cons w ws hs e in
    let (now, later) = missing_owner-cons h rest (subst (λ xs. missing_owner xs ≡ []) same own) in
    let (now', later') =
      missing_opatch-cons h rest (subst (λ xs. missing_opatch xs ≡ []) same opa) in
    elim (mem-cases m) [
      | inl at_head ↦ record {
        home = h;
        home_of = subst (λ x. read_home x ≡ ok h) (sym at_head) eh;
        owner = now;
        opatch = now';
      }
      | inr inside ↦ read_homes-Owned ws rest v er later later' inside
    ]

-- Some homes are listed, and each is owned.
pub record AllOwned (snapshot : Json) : Type 0 where
  pub some_home : is_nil (some_list (get "oracle_homes" snapshot)) ≡ false
  pub owned : (v : Json) → Memᴰ v (some_list (get "oracle_homes" snapshot)) → Owned v

pub oracle_homes-AllOwned :
    (show : Json → String) (snapshot : Json) (p : Phase)
    → oracle_homes show snapshot ≡ ok p
    → is_good p ≡ true
    → AllOwned snapshot
unfolding oracle_homes
oracle_homes-AllOwned show snapshot p h good =
    elim (Bool-cases (is_nil (some_list (get "oracle_homes" snapshot)))) [
      | inl e ↦
          let bad = subst (λ (q : Phase). is_good q ≡ true) (sym (ok_inj _ _ (rw e at h))) good in
          absurd (no_truth bad)
      | inr some_home ↦
          let h1 = rw some_home at h in
          let homes = some_list (get "oracle_homes" snapshot) in
          let (hs, eh, h2) =
            and_then-eq-ok (read_homes homes)
              (λ hs. homes_phase show homes (missing_owner hs) (missing_opatch hs)) h1 in
          let (own, opa) = homes_phase-good show homes _ _ p h2 good in
          record { some_home = some_home; owned = λ v m. read_homes-Owned homes hs v eh own opa m }
    ]

-- A home whose platform evidence is collected and complete.
pub record Collected (show : Json → String) (v : Json) : Type 0 where
  pub home : Json
  pub platform : Json
  pub home_of : dict_or_fault v ≡ ok home
  pub platform_of_home : dict_or_empty (get "platform" home) ≡ ok platform
  pub says_collected : says show "collected" (get "status" platform) ≡ true
  pub evidence_complete : is_complete platform ≡ true

platform_of-collected :
    (show : Json → String) (p : Json)
    → platform_of show p ≡ collected
    → (says show "collected" (get "status" p) ≡ true) × (is_complete p ≡ true)
unfolding platform_of
platform_of-collected show p h = ground arith

tally-cons :
    (show : Json → String) (w : Json) (ws : List Json) (t : Tally)
    → tally show (w ∷ ws) ≡ ok t
    → (home platform : Json) × (n : ℕ) × (rest : Tally) × (dict_or_fault w ≡ ok home)
      × (dict_or_empty (get "platform" home) ≡ ok platform)
      × (tally show ws ≡ ok rest)
      × (t ≡ count_platform (platform_of show platform) n rest)
unfolding tally
tally-cons show w ws t e =
    let last = λ (platform : Json) (n : ℕ) (rest : Tally).
      let r : Result Fault Tally = ok (count_platform (platform_of show platform) n rest) in r in
    let (home, e0, h0) =
      and_then-eq-ok (dict_or_fault w)
        (λ home. and_then (dict_or_empty (get "platform" home)) λ platform.
          and_then (size (get "patches" home)) λ n. and_then (tally show ws) (last platform n))
        e in
    let (platform, e1, h1) =
      and_then-eq-ok (dict_or_empty (get "platform" home))
        (λ platform.
          and_then (size (get "patches" home)) λ n. and_then (tally show ws) (last platform n))
        h0 in
    let (n, e2, h2) =
      and_then-eq-ok (size (get "patches" home)) (λ n. and_then (tally show ws) (last platform n))
        h1 in
    let (rest, e3, h3) = and_then-eq-ok (tally show ws) (last platform n) h2 in
    (home, platform, n, rest, e0, e1, e3, sym (ok_inj _ _ h3))

count_platform-le :
    (p : Platform) (n : ℕ) (t : Tally) → (count_platform p n t).collected ≤ suc t.collected
unfolding count_platform
count_platform-le p n t = ground arith

count_platform-collected :
    (p : Platform) (n : ℕ) (t : Tally)
    → (count_platform p n t).collected ≡ suc t.collected
    → p ≡ collected
unfolding count_platform
count_platform-collected p n t h = ground arith

tally-nil :
    (show : Json → String) (t : Tally)
    → tally show [] ≡ ok t
    → t ≡ record { collected = 0; failed = 0; unavailable = 0; patches = 0 }
unfolding tally
tally-nil show t e = sym (ok_inj _ t e)

tally-le :
    (show : Json → String) (vs : List Json) (t : Tally)
    → tally show vs ≡ ok t
    → t.collected ≤ length vs
tally-le show [] t e = omega (arith, ap (λ (t : Tally). t.collected) (tally-nil show t e))
tally-le show (w ∷ ws) t e =
    let (home, platform, n, rest, e0, e1, er, same) = tally-cons show w ws t e in
    omega (
      arith,
      ap (λ (t : Tally). t.collected) same,
      count_platform-le (platform_of show platform) n rest,
      tally-le show ws rest er,
    )

-- Where as many homes are collected as there are, each is.
tally-Collected :
    (show : Json → String) (vs : List Json) (t : Tally) (v : Json)
    → tally show vs ≡ ok t
    → t.collected ≡ length vs
    → Memᴰ v vs
    → Collected show v
tally-Collected show [] t v e full m = elim m [ ]
tally-Collected show (w ∷ ws) t v e full m =
    let (home, platform, n, rest, e0, e1, er, same) = tally-cons show w ws t e in
    let counted = ap (λ (t : Tally). t.collected) same in
    let below = tally-le show ws rest er in
    let step = count_platform-le (platform_of show platform) n rest in
    let full_rest : rest.collected ≡ length ws = omega arith in
    let one_more : (count_platform (platform_of show platform) n rest).collected
        ≡ suc rest.collected =
      omega arith in
    let (says_it, complete) =
      platform_of-collected show platform
        (count_platform-collected (platform_of show platform) n rest one_more) in
    elim (mem-cases m) [
      | inl at_head ↦ record {
        home = home;
        platform = platform;
        home_of = subst (λ x. dict_or_fault x ≡ ok home) (sym at_head) e0;
        platform_of_home = e1;
        says_collected = says_it;
        evidence_complete = complete;
      }
      | inr inside ↦ tally-Collected show ws rest v er full_rest inside
    ]

inventory_phase-good : (n : ℕ) (t : Tally) → is_good (inventory_phase n t) ≡ true → t.collected ≡ n
unfolding inventory_phase
inventory_phase-good n t h = elim (Bool-cases (t.collected == n)) [
  | inl all_of ↦ ground arith
  | inr e ↦
      let h1 = rw e at h in
      elim (Bool-cases (t.failed != 0)) [
        | inl f ↦ let bad = rw f at h1 in absurd (no_truth bad)
        | inr f ↦
            let h2 = rw f at h1 in
            elim (Bool-cases (t.collected != 0)) [
              | inl c ↦ let bad = rw c at h2 in absurd (no_truth bad)
              | inr c ↦ let bad = rw c at h2 in absurd (no_truth bad)
            ]
      ]
]

pub patch_inventory-Collected :
    (show : Json → String) (snapshot : Json) (p : Phase) (v : Json)
    → patch_inventory show snapshot ≡ ok p
    → is_good p ≡ true
    → is_nil (some_list (get "oracle_homes" snapshot)) ≡ false
    → Memᴰ v (some_list (get "oracle_homes" snapshot))
    → Collected show v
unfolding patch_inventory
patch_inventory-Collected show snapshot p v h good some_home m =
    let homes = some_list (get "oracle_homes" snapshot) in
    let (t, et, h2) =
      and_then-eq-ok (tally show homes) (λ t. ok (inventory_phase (length homes) t))
        (rw some_home at h) in
    let passed = subst (λ (q : Phase). is_good q ≡ true) (sym (ok_inj _ _ h2)) good in
    tally-Collected show homes t v et (inventory_phase-good (length homes) t passed) m
