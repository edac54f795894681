-- ===== src/Phases/Runtimes.antt =====
-- What the database phase says of the databases where it does not keep the rollup from passing.
use mathlib.Core.List.{Memᴰ}
use oracle_patching.Prelude.{
  ℕ, suc, ◌≤◌, String, ◌≡◌, refl, sym, ap, subst, ◌⊎◌, inl, inr, Bool, true, false, List, [], ◌∷◌,
  arith, mem-cases, ◌==◌, ◌!=◌, nat_eq, length, is_nil, Bool-cases, not, ◌||◌,
}
use oracle_patching.Exec.{ok, and_then, and_then-eq-ok, ok_inj}
use oracle_patching.Json.{Json, get}
use oracle_patching.Phases.Values.{dict_or_empty, says, some_list}
use oracle_patching.Phases.Defs.{Phase}
use oracle_patching.Phases.Cluster.{
  Database, read_database, read_databases, missing_home, complete_count, down_count,
  databases_phase, no_databases, databases,
}
use oracle_patching.Phases.Passed.{is_good, no_truth}

-- A database that names its home and whose runtime is complete.
pub record Running (show : Json → String) (v : Json) : Type 0 where
  pub database : Database
  pub read : read_database show v ≡ ok database
  pub homed : database.has_home ≡ true
  pub running : database.is_complete_now ≡ true

read_databases-cons :
    (show : Json → String) (w : Json) (ws : List Json) (ds : List Database)
    → read_databases show (w ∷ ws) ≡ ok ds
    → (d : Database) × (rest : List Database) × (read_database show w ≡ ok d)
      × (read_databases show ws ≡ ok rest)
      × (ds ≡ d ∷ rest)
unfolding read_databases
read_databases-cons show w ws ds e =
    let (d, ed, e1) =
      and_then-eq-ok (read_database show w)
        (λ d. and_then (read_databases show ws) λ ds. ok (d ∷ ds)) e in
    let (rest, er, e2) = and_then-eq-ok (read_databases show ws) (λ ds. ok (d ∷ ds)) e1 in
    (d, rest, ed, er, sym (ok_inj _ _ e2))

missing_home-cons :
    (d : Database) (ds : List Database)
    → missing_home (d ∷ ds) ≡ 0
    → (d.has_home ≡ true) × (missing_home ds ≡ 0)
unfolding missing_home
missing_home-cons d ds h = ground arith

complete_count-le : (ds : List Database) → complete_count ds ≤ length ds
unfolding complete_count
complete_count-le [] = omega arith
complete_count-le (d ∷ ds) = ground (arith, complete_count-le ds)

complete_count-cons :
    (d : Database) (ds : List Database)
    → complete_count (d ∷ ds) ≡ suc (length ds)
    → (d.is_complete_now ≡ true) × (complete_count ds ≡ length ds)
unfolding complete_count
complete_count-cons d ds h = ground (arith, complete_count-le ds)

length-read_databases :
    (show : Json → String) (vs : List Json) (ds : List Database)
    → read_databases show vs ≡ ok ds
    → length ds ≡ length vs
unfolding read_databases
length-read_databases show [] ds e = ap length (sym (ok_inj _ ds e))
length-read_databases show (w ∷ ws) ds e =
    let (d, rest, ed, er, same) = read_databases-cons show w ws ds e in
    omega (arith, ap length same, length-read_databases show ws rest er)

read_databases-Running :
    (show : Json → String) (vs : List Json) (ds : List Database) (v : Json)
    → read_databases show vs ≡ ok ds
    → missing_home ds ≡ 0
    → complete_count ds ≡ length ds
    → Memᴰ v vs
    → Running show v
read_databases-Running show [] ds v e homes full m = elim m [ ]
read_databases-Running show (w ∷ ws) ds v e homes full m =
    let (d, rest, ed, er, same) = read_databases-cons show w ws ds e in
    let (homed, homes') = missing_home-cons d rest (subst (λ xs. missing_home xs ≡ 0) same homes) in
    let (running, full') =
      complete_count-cons d rest (subst (λ xs. complete_count xs ≡ length xs) same full) in
    elim (mem-cases m) [
      | inl at_head ↦ record {
        database = d;
        read = subst (λ x. read_database show x ≡ ok d) (sym at_head) ed;
        homed = homed;
        running = running;
      }
      | inr inside ↦ read_databases-Running show ws rest v er homes' full' inside
    ]

databases_phase-good :
    (show : Json → String) (dbs : List Json) (ds : List Database)
    → is_good (databases_phase show dbs ds) ≡ true
    → (missing_home ds ≡ 0) × (complete_count ds ≡ length dbs)
unfolding databases_phase
databases_phase-good show dbs ds h = elim (Bool-cases (missing_home ds != 0)) [
  | inl e ↦ let bad = rw e at h in absurd (no_truth bad)
  | inr none ↦
      let h1 = rw none at h in
      elim (Bool-cases (complete_count ds == length dbs)) [
        | inl full ↦ ground arith
        | inr e ↦
            let h2 = rw e at h1 in
            elim (Bool-cases ((complete_count ds != 0) || (down_count ds != 0))) [
              | inl c ↦ let bad = rw c at h2 in absurd (no_truth bad)
              | inr c ↦ let bad = rw c at h2 in absurd (no_truth bad)
            ]
      ]
]

pub databases-Running :
    (show : Json → String) (snapshot : Json) (p : Phase) (v : Json)
    → databases show snapshot ≡ ok p
    → is_good p ≡ true
    → Memᴰ v (some_list (get "databases" snapshot))
    → Running show v
unfolding databases is_nil
databases-Running show snapshot p v h good m =
    let dbs = some_list (get "databases" snapshot) in
    let (cluster, ec, h1) =
      and_then-eq-ok (dict_or_empty (get "cluster" snapshot))
        (λ cluster.
          oracle_patching.Prelude.if◌then◌else◌ (is_nil dbs)
            (ok (no_databases (says show "detected" (get "status" cluster))))
            (and_then (read_databases show dbs) λ found. ok (databases_phase show dbs found)))
        h in
    elim (Bool-cases (is_nil dbs)) [
      | inl e ↦ absurd (no_member dbs e v m)
      | inr some_db ↦
          let (ds, ed, h2) =
            and_then-eq-ok (read_databases show dbs) (λ found. ok (databases_phase show dbs found))
              (rw some_db at h1) in
          let (homes, full) =
            databases_phase-good show dbs ds
              (subst (λ (q : Phase). is_good q ≡ true) (sym (ok_inj _ _ h2)) good) in
          read_databases-Running show dbs ds v ed homes
            (omega (arith, length-read_databases show dbs ds ed)) m
    ]
  where
    no_member : (xs : List Json) → is_nil xs ≡ true → (w : Json) → Memᴰ w xs → ⊥
    no_member [] e w k = elim k [ ]
    no_member (x ∷ xs) e w k = no_truth e
