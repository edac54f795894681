-- ===== src/Runner/Start.antt =====
-- A run is started only where its key has no unresolved run.
use Prim.Native.String.{String}
use mathlib.Core.List.{Memᴰ}
use oracle_patching.Prelude.{
  ℕ, ◌≡◌, refl, sym, ap, subst, ◌∙◌, inl, inr, false, ◌&&◌, Option, none, some, List, [], ◌∷◌,
  eq_iff, ◌==◌, string_eq, if◌then◌else◌, Bool-cases, mem-cases,
}
use oracle_patching.Prelude.Dict
use oracle_patching.Prelude.Text.{str_ltb}
use oracle_patching.Exec.{Result, ok, err, lift}
use oracle_patching.Exec.Triple.{
  Triple, Meets, Triple-bind, Triple-lift-then, Triple-modify-then, Triple-pure, Triple-ok,
}
use oracle_patching.Runner.Record.{
  is_unresolved, Run, Owner, File, unreadable, saved, Files, Engine, RunError, save, insert_file,
  sort_files, find_active, disk_active, active_run_id, new_run, claim_key, unless_active,
}
use oracle_patching.Runner.Work.{start_run}
use oracle_patching.Runner.Dedupe.{Clear}

get-mem :
    {V : Type 0} (k : String) (v : V) (d : List (String × V))
    → Dict.get k d ≡ some v
    → Memᴰ (k, v) d
unfolding Dict.get
get-mem k v [] h = cc
get-mem k v ((j, w) ∷ d) h = elim (Bool-cases (j == k)) [
  | inl t ↦ Memᴰ.head (cc ((eq_iff j k).0 t, rw t at h))
  | inr f ↦ Memᴰ.tail (get-mem k v d (rw f at h))
]

insert_file_self : (f : String × File) (gs : Files) → Memᴰ f (insert_file f gs)
unfolding insert_file
insert_file_self f [] = Memᴰ.head refl
insert_file_self f (g ∷ gs) = elim (Bool-cases (str_ltb g.0 f.0)) [
  | inl t ↦ rw t (Memᴰ.tail (insert_file_self f gs))
  | inr n ↦ rw n (Memᴰ.head refl)
]

mem-insert_file : (f x : String × File) (gs : Files) → Memᴰ x gs → Memᴰ x (insert_file f gs)
unfolding insert_file
mem-insert_file f x [] m = Memᴰ.tail m
mem-insert_file f x (g ∷ gs) m = elim (Bool-cases (str_ltb g.0 f.0)) [
  | inl t ↦
      rw t
        (elim (mem-cases m) [ inl e ↦ Memᴰ.head e | inr r ↦ Memᴰ.tail (mem-insert_file f x gs r) ])
  | inr n ↦ rw n (Memᴰ.tail m)
]

mem-sort_files : (x : String × File) (fs : Files) → Memᴰ x fs → Memᴰ x (sort_files fs)
unfolding sort_files
mem-sort_files x [] m = m
mem-sort_files x (f ∷ fs) m = elim (mem-cases m) [
  | inl e ↦
      subst (λ y. Memᴰ y (insert_file f (sort_files fs))) (sym e)
        (insert_file_self f (sort_files fs))
  | inr r ↦ mem-insert_file f x (sort_files fs) (mem-sort_files x fs r)
]

find_active-none :
    (key : String) (fs : Files) (id : String) (b : Run)
    → find_active key fs ≡ ok none
    → Memᴰ (id, saved b) fs
    → (b.key == key && is_unresolved b.status) ≡ false
unfolding find_active
find_active-none key [] id b h m = elim m [ ]
find_active-none key ((i, unreadable) ∷ fs) id b h m = cc
find_active-none key ((i, saved r) ∷ fs) id b h m =
    elim (Bool-cases (r.key == key && is_unresolved r.status)) [
      | inl t ↦ absurd (cc (rw t at h))
      | inr f ↦ elim (mem-cases m) [
        | inl e ↦
            let same : b ≡ r = cc in
            ap (λ (x : Run). x.key == key && is_unresolved x.status) same ∙ f
        | inr n ↦ find_active-none key fs id b (rw f at h) n
      ]
    ]

active_run_id-none :
    (key : String) (e : Engine) → active_run_id key e ≡ ok none → disk_active key e ≡ ok none
unfolding active_run_id
active_run_id-none key e h = go (Dict.get key e.active) h
  where
    go :
        (o : Option String)
        → (elim o [
          | none ↦ disk_active key e
          | some id ↦ if id == "" then disk_active key e else ok (some id)
        ])
          ≡ ok none
        → disk_active key e ≡ ok none
    go none h = h
    go (some id) h = elim (Bool-cases (id == "")) [
      | inl t ↦ rw t at h
      | inr f ↦ absurd (cc (rw f at h))
    ]

disk_active-Clear :
    (key : String) (e : Engine) (id : String) → disk_active key e ≡ ok none → Clear e id key
unfolding disk_active
disk_active-Clear key e id h j b on u k =
    let no =
      find_active-none key (sort_files e.disk) j b h
        (mem-sort_files (j, saved b) e.disk (get-mem j (saved b) e.disk on)) in
    absurd (cc (no, (eq_iff b.key key).1 (sym k), u))

unless_active-ok : (o : Option String) {u : Unit {0}} → unless_active o ≡ ok u → o ≡ none
unfolding unless_active
unless_active-ok none h = refl
unless_active-ok (some id) h = cc

module _ (run_id kind key : String) (now : ℕ) (owner : Owner) (e : Engine) where
  Triple-active :
      Triple {E = RunError}
        (λ s. s ≡ e)
        (λ s. lift (active_run_id key s) s)
        (λ o s. (s ≡ e) × (active_run_id key e ≡ ok o))
        (λ s. s ≡ e)
  unfolding lift
  Triple-active = record { at = λ s p. go (active_run_id key s) s p refl }
    where
      go :
          (r : Result RunError (Option String)) (s : Engine)
          → s ≡ e
          → active_run_id key s ≡ r
          → Meets (λ o t. (t ≡ e) × (active_run_id key e ≡ ok o)) (λ t. t ≡ e) (r, s)
      go (ok o) s p h = (p, subst (λ x. active_run_id key x ≡ ok o) p h)
      go (err x) s p h = p

  -- What a start that returns found and left.
  abbrev pub Started : Run → Engine → Type 0
  Started r e' =
      (active_run_id key e ≡ ok none)
      × Clear e run_id key
      × (r ≡ new_run run_id kind key now owner)
      × (e' ≡ claim_key key run_id (save (new_run run_id kind key now owner) e))

  pub Triple-start_run :
      Triple (λ s. s ≡ e) (start_run run_id kind key now owner) Started (λ s. s ≡ e)
  unfolding start_run
  Triple-start_run =
      Triple-bind (λ o s. (s ≡ e) × (active_run_id key e ≡ ok o)) _ _ Triple-active
        λ o.
          Triple-lift-then _ _ (λ s p. p.0)
            λ u free.
              Triple-modify-then
                (λ s.
                  (s ≡ save (new_run run_id kind key now owner) e)
                  × (active_run_id key e ≡ ok none))
                _ _
                (λ s p. (
                  ap (save (new_run run_id kind key now owner)) p.0,
                  p.1 ∙ ap ok (unless_active-ok o free),
                ))
                (Triple-modify-then
                  (λ s.
                    (s ≡ claim_key key run_id (save (new_run run_id kind key now owner) e))
                    × (active_run_id key e ≡ ok none))
                  _ _ (λ s p. (ap (claim_key key run_id) p.0, p.1))
                  (Triple-pure _ λ s p. (
                    p.1,
                    disk_active-Clear key e run_id (active_run_id-none key e p.1),
                    refl,
                    p.0,
                  )))

  -- A start that returns: memory had no run under way for the key, no file had an unresolved run of
  -- it, and the new run is on disk, in memory and in `_ACTIVE_KEYS`, queued.
  pub start_run-Started :
      {r : Run} (e' : Engine) → start_run run_id kind key now owner e ≡ (ok r, e') → Started r e'
  start_run-Started e' h = Triple-ok Started _ e Triple-start_run refl h
