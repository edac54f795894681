-- ===== src/Runner/Dedupe.antt =====
-- No key has two unresolved runs, whatever workers, requests and restarts do.
use Prim.Native.String.{String}
use oracle_patching.Prelude.{
  ◌≡◌, sym, ap, ◌∙◌, ◌⊎◌, inl, inr, Bool, true, false, not, ◌&&◌, Option, some, List, eq_iff, ◌==◌,
  string_eq, if◌then◌else◌, Bool-cases,
}
use oracle_patching.Prelude.Dict
use oracle_patching.Runner.Record.{is_unresolved, Run, File, saved, Engine, to_json, save}
use oracle_patching.Runner.Work.{release_key, drop_key}

-- The file of `id` is the run `r`.
abbrev pub OnDisk : Engine → String → Run → Type 0
OnDisk e id r = Dict.get id e.disk ≡ some (saved r)

-- An unresolved run in memory has an unresolved file, of the same key.
abbrev pub Backed : Engine → String → Run → Type 0
Backed e id r = (d : Run) × OnDisk e id d × (is_unresolved d.status ≡ true) × (d.key ≡ r.key)

pub record Good (e : Engine) : Type 0 where
  pub single :
      (i j : String) (a b : Run)
      → OnDisk e i a
      → OnDisk e j b
      → is_unresolved a.status ≡ true
      → is_unresolved b.status ≡ true
      → a.key ≡ b.key
      → i ≡ j
  pub backed :
      (id : String) (r : Run)
      → Dict.get id e.runs ≡ some r
      → (r.run_id ≡ id) × (is_unresolved r.status ≡ true → Backed e id r)

saved_inj : (a b : Run) → ◌≡◌ {A = Option File} (some (saved a)) (some (saved b)) → a ≡ b
saved_inj a b h = cc

-- No other file has an unresolved run of the key.
abbrev pub Clear : Engine → String → String → Type 0
Clear e id key =
    (j : String) (b : Run) → OnDisk e j b → is_unresolved b.status ≡ true → key ≡ b.key → j ≡ id

-- What a key is after a write.
put-cases :
    {V : Type 0} (id j : String) (v : V) (d : List (String × V)) (o : Option V)
    → Dict.get j (Dict.put id v d) ≡ o
    → ((j ≡ id) × (some v ≡ o)) ⊎ (((id == j) ≡ false) × (Dict.get j d ≡ o))
put-cases id j v d o h = elim (Bool-cases (id == j)) [
  | inl t ↦ inl (sym ((eq_iff id j).0 t), rw t at (rw (Dict.get-put id j v d) at h))
  | inr f ↦ inr (f, rw f at (rw (Dict.get-put id j v d) at h))
]

-- An entry stays when another is written.
put_other :
    {V : Type 0} (id j : String) (v w : V) (d : List (String × V))
    → (id == j) ≡ false
    → Dict.get j d ≡ some w
    → Dict.get j (Dict.put id v d) ≡ some w
put_other id j v w d n h = rw (Dict.get-put id j v d, n) h

module _ (r : Run) (e : Engine) (g : Good e)
    (clear : is_unresolved r.status ≡ true → Clear e r.run_id r.key) where
  -- The run written against another file.
  against :
      (a b : Run) (j : String)
      → ◌≡◌ {A = Option File} (some (saved (to_json r))) (some (saved a))
      → OnDisk e j b
      → is_unresolved a.status ≡ true
      → is_unresolved b.status ≡ true
      → a.key ≡ b.key
      → j ≡ r.run_id
  unfolding to_json
  against a b j ra ob ua ub k =
      let same : to_json r ≡ a = saved_inj (to_json r) a ra in
      clear (ap (λ (x : Run). is_unresolved x.status) same ∙ ua) j b ob ub
        (ap (λ (x : Run). x.key) same ∙ k)

  -- Such a write keeps the order of things where the run is resolved or no other file has its key.
  pub save-Good : Good (save r e)
  unfolding save to_json
  save-Good = record {
    single = λ i j a b sa sb ua ub k.
        elim (put-cases r.run_id i (saved (to_json r)) e.disk (some (saved a)) sa) [
          | inl (ei, ra) ↦
              elim (put-cases r.run_id j (saved (to_json r)) e.disk (some (saved b)) sb) [
                | inl (ej, rb) ↦ ei ∙ sym ej
                | inr (_, ob) ↦ ei ∙ sym (against a b j ra ob ua ub k)
              ]
          | inr (_, oa) ↦
              elim (put-cases r.run_id j (saved (to_json r)) e.disk (some (saved b)) sb) [
                | inl (ej, rb) ↦ against b a i rb oa ub ua (sym k) ∙ sym ej
                | inr (_, ob) ↦ g.single i j a b oa ob ua ub k
              ]
        ];
    backed = λ id x m. elim (put-cases r.run_id id r e.runs (some x) m) [
      | inl (same_id, same) ↦
          let it : r ≡ x = cc in
          (
            ap (λ (y : Run). y.run_id) (sym it) ∙ sym same_id,
            λ u. (
              to_json r,
              rw same_id (Dict.get-put_self r.run_id (saved (to_json r)) e.disk),
              ap (λ (y : Run). is_unresolved y.status) it ∙ u,
              ap (λ (y : Run). y.key) it,
            ),
          )
      | inr (n, old) ↦
          let (named, kept) = g.backed id x old in
          (
            named,
            λ u.
                let (d, on, ud, k) = kept u in
                (d, put_other r.run_id id (saved (to_json r)) (saved d) e.disk n on, ud, k),
          )
    ];
  }

-- In a good engine no other file has the key of an unresolved run in memory.
memory-Clear :
    (e : Engine) (id : String) (r : Run)
    → Good e
    → Dict.get id e.runs ≡ some r
    → is_unresolved r.status ≡ true
    → Clear e r.run_id r.key
memory-Clear e id r g m u j b ob ub k =
    let (named, kept) = g.backed id r m in
    let (d, on, ud, dk) = kept u in g.single j id b d ob on ub ud (sym k ∙ sym dk) ∙ sym named

-- A change of a run in memory that keeps its name and key, and does not reopen it.
pub change-Good :
    (e : Engine) (id : String) (r s : Run)
    → Good e
    → Dict.get id e.runs ≡ some r
    → s.run_id ≡ r.run_id
    → s.key ≡ r.key
    → (is_unresolved s.status ≡ true → is_unresolved r.status ≡ true)
    → Good (save s e)
change-Good e id r s g m n k stays =
    save-Good s e g
      λ u j b ob ub kb. memory-Clear e id r g m (stays u) j b ob ub (sym k ∙ kb) ∙ sym n

-- The keys of `_ACTIVE_KEYS` do not matter to it.
pub active-Good :
    (e : Engine) (ks : List (String × String)) → Good e → Good (record e { active = ks })
active-Good e ks g = record { single = g.single; backed = g.backed }

pub release_key-Good : (r : Run) (e : Engine) → Good e → Good (release_key r e)
unfolding release_key
release_key-Good r e g = go (not (is_unresolved r.status) && _)
  where
    go : (b : Bool) → Good (if b then record e { active = drop_key r.key e.active } else e)
    go true = active-Good e _ g
    go false = g

-- A record that comes into memory alone.
pub memory-Good :
    (e : Engine) (id : String) (x : Run)
    → Good e
    → x.run_id ≡ id
    → (is_unresolved x.status ≡ true → Backed e id x)
    → Good (record e { runs = Dict.put id x e.runs })
memory-Good e id x g named kept = record {
  single = g.single;
  backed = λ j y m. elim (put-cases id j x e.runs (some y) m) [
    | inl (same_id, same) ↦
        let it : x ≡ y = cc in
        (
          ap (λ (z : Run). z.run_id) (sym it) ∙ named ∙ sym same_id,
          λ u.
              let (d, on, ud, k) = kept (ap (λ (z : Run). is_unresolved z.status) it ∙ u) in
              (d, rw same_id on, ud, k ∙ ap (λ (z : Run). z.key) it),
        )
    | inr (_, old) ↦ g.backed j y old
  ];
}
