-- ===== src/Runner/Steps.antt =====
-- What the operations of the engine keep.
use Prim.Native.String.{String}
use oracle_patching.Prelude.{
  ℕ, ◌≡◌, refl, sym, subst, ◌∙◌, Bool, true, false, Option, none, some, arith, string_eq,
  if◌then◌else◌,
}
use oracle_patching.Prelude.Text.{codes, is_hex}
use oracle_patching.Prelude.Dict
use oracle_patching.Json.{Json}
use oracle_patching.Exec.{ok, ok_inj, lift, ◌>>=◌, some_or}
use oracle_patching.Exec.Triple.{
  Triple, Meets, keeps-Triple, Triple-weaken, Triple-bind, Triple-guard, Triple-lift-then,
  Triple-modify-then, Triple-pure,
}
use oracle_patching.Runner.Record.{
  RunStatus, is_unresolved, Run, Owner, File, unreadable, saved, Engine, RunError, save, new_run,
  claim_key, unknown_run, running, unknown, failed,
}
use oracle_patching.Runner.Work.{start_run, Outcome, returned, raised, ended, settle}
use oracle_patching.Runner.Close.{
  loaded, load_persisted, cache, get_run, is_closable, Verdict, Acknowledgement, closed_run,
  close_found, reconcile_run,
}
use oracle_patching.Runner.Dedupe.{
  OnDisk, Good, save-Good, change-Good, active-Good, release_key-Good, memory-Good,
}
use oracle_patching.Runner.Start.{Triple-start_run}

pub start_run-Good :
    (run_id kind key : String) (now : ℕ) (owner : Owner) (e : Engine)
    → Good e
    → Good (start_run run_id kind key now owner e).1
unfolding new_run claim_key
start_run-Good run_id kind key now owner e g =
    keeps-Triple {R = Good} (start_run run_id kind key now owner) e triple g
  where
    triple : Triple Good (start_run run_id kind key now owner) (λ _. Good) Good
    triple = record {
      at = λ s h.
          (Triple-weaken {P = λ x. x ≡ s} {R = Good} {Q = λ _. Good} _
              (Triple-start_run run_id kind key now owner s) (λ x p. p)
              (λ r x st. subst Good (sym st.3) (
                active-Good (save (new_run run_id kind key now owner) s) _
                  (save-Good (new_run run_id kind key now owner) s h (λ u. st.1))))
              (λ x p. subst Good (sym p) h)).at
            s refl;
    }

run_id-ended : (now : ℕ) (o : Outcome) (r : Run) → (ended now o r).run_id ≡ r.run_id
unfolding ended
run_id-ended now (returned v) r = refl
run_id-ended now (raised v) r = refl

key-ended : (now : ℕ) (o : Outcome) (r : Run) → (ended now o r).key ≡ r.key
unfolding ended
key-ended now (returned v) r = refl
key-ended now (raised v) r = refl

pub settle-Good :
    (written : Bool) (now : ℕ) (o : Outcome) (id : String) (r : Run) (e : Engine)
    → Good e
    → Dict.get id e.runs ≡ some r
    → is_unresolved r.status ≡ true
    → Good (settle written now o r e)
unfolding settle
settle-Good true now o id r e g m u =
    release_key-Good (ended now o r) _
      (change-Good e id r (ended now o r) g m (run_id-ended now o r) (key-ended now o r) (λ _. u))
settle-Good false now o id r e g m u =
    let (named, kept) = g.backed id r m in
    let lost = record (ended now o r) { status = unknown } in
    release_key-Good lost (record e { runs = Dict.put r.run_id lost e.runs })
      (memory-Good e r.run_id lost g (run_id-ended now o r) (λ _.
        let (d, on, ud, k) = kept u in
        (d, subst (λ x. OnDisk e x d) (sym named) on, ud, k ∙ sym (key-ended now o r))))

loaded-unresolved :
    (process : String) (lost : Json) (r : Run)
    → is_unresolved (loaded process lost r).status ≡ true
    → is_unresolved r.status ≡ true
unfolding loaded
loaded-unresolved process lost r h = ground (arith, h)

key-loaded : (process : String) (lost : Json) (r : Run) → (loaded process lost r).key ≡ r.key
unfolding loaded
key-loaded process lost r = ground arith

cache-Good :
    (process : String) (lost : Json) (id : String) (e : Engine)
    → Good e
    → Good (cache id (load_persisted process lost id e) e)
unfolding cache load_persisted
cache-Good process lost id e g = go (is_hex 12 (codes id)) (Dict.get id e.disk) refl
  where
    go :
        (b : Bool) (o : Option File)
        → Dict.get id e.disk ≡ o
        → Good (
            cache id
              (if b
                then elim o [
                  | none ↦ none
                  | some unreadable ↦ none
                  | some (saved r) ↦ some (record (loaded process lost r) { run_id = id })
                ]
                else none)
              e)
    go false o h = g
    go true none h = g
    go true (some unreadable) h = g
    go true (some (saved r)) h =
        memory-Good e id (record (loaded process lost r) { run_id = id }) g refl
          (λ u. (r, h, loaded-unresolved process lost r u, sym (key-loaded process lost r)))

-- What `get_run` finds is in memory afterwards.
abbrev pub Cached : String → Option Run → Engine → Type 0
Cached id none e = Good e
Cached id (some r) e = Good e × (Dict.get id e.runs ≡ some r)

cache-Cached :
    (id : String) (o : Option Run) (e : Engine) → Good (cache id o e) → Cached id o (cache id o e)
unfolding cache
cache-Cached id none e g = g
cache-Cached id (some r) e g = (g, Dict.get-put_self id r e.runs)

pub Triple-get_run :
    (process : String) (lost : Json) (id : String)
    → Triple Good (get_run process lost id) (λ o e. Cached id o e) Good
unfolding get_run
Triple-get_run process lost id = record { at = λ e g. go e g (Dict.get id e.runs) refl }
  where
    go :
        (e : Engine)
        → Good e
        → (o : Option Run) → Dict.get id e.runs ≡ o
        → Meets {E = RunError}
            (λ o e. Cached id o e)
            Good
            (elim o [
              | some r ↦ (ok (some r), e)
              | none ↦ (
                ok (load_persisted process lost id e),
                cache id (load_persisted process lost id e) e,
              )
            ])
    go e g (some r) h = (g, h)
    go e g none h = cache-Cached id _ e (cache-Good process lost id e g)

pub get_run-Good :
    (process : String) (lost : Json) (id : String) (e : Engine)
    → Good e
    → Good (get_run process lost id e).1
get_run-Good process lost id e g =
    keeps-Triple {R = Good} (get_run process lost id) e
      (Triple-weaken _ (Triple-get_run process lost id) (λ e g. g) any_run (λ e g. g)) g
  where
    any_run : (o : Option Run) (t : Engine) → Cached id o t → Good t
    any_run none t c = c
    any_run (some r) t c = c.0

closable-unresolved : (s : RunStatus) → is_closable s ≡ true → is_unresolved s ≡ true
unfolding is_closable is_unresolved
closable-unresolved unknown h = refl
closable-unresolved RunStatus.reconciling h = refl
closable-unresolved RunStatus.queued h = cc
closable-unresolved running h = cc
closable-unresolved RunStatus.succeeded h = cc
closable-unresolved failed h = cc
closable-unresolved (RunStatus.other t) h = cc

some_inj : (r s : Run) → ◌≡◌ {A = Option Run} (some r) (some s) → r ≡ s
some_inj r s h = cc

module _ (inspect : Run → Verdict) (owner_alive : Owner → Bool) (closed : Option String → Json)
    (now : ℕ) (run_id actor : String) (ack : Acknowledgement) where
  Triple-close_found :
      (r : Run)
      → Triple
          (λ e. Good e × (Dict.get run_id e.runs ≡ some r))
          (close_found inspect owner_alive closed now run_id actor ack r)
          (λ _. Good)
          Good
  unfolding close_found closed_run
  Triple-close_found r =
      Triple-guard _ _ _ (λ e p. p.0)
        λ closable.
          Triple-lift-then _ _ (λ e p. p.0)
            λ v _.
              Triple-modify-then Good _ _
                (λ e p.
                  change-Good e run_id r (closed_run actor now ack.note v r) p.0 p.1 refl refl
                    (λ _. closable-unresolved r.status closable))
                (Triple-modify-then Good _ _
                  (λ e p. release_key-Good (closed_run actor now ack.note v r) e p)
                  (Triple-pure _ (λ e p. p)))

  Triple-found :
      (o : Option Run)
      → Triple
          (λ e. Cached run_id o e)
          (lift (some_or unknown_run o) >>= λ r.
            close_found inspect owner_alive closed now run_id actor ack r)
          (λ _. Good)
          Good
  Triple-found none = Triple-lift-then _ _ (λ e g. g) λ r h. cc
  Triple-found (some r) =
      Triple-lift-then _ _ (λ e p. p.0)
        λ s h.
          subst
            (λ x.
              Triple (λ e. Good e × (Dict.get run_id e.runs ≡ some r))
                (close_found inspect owner_alive closed now run_id actor ack x) (λ _. Good) Good)
            (ok_inj r s h) (Triple-close_found r)

  pub Triple-reconcile_run :
      (process : String) (lost : Json)
      → Triple Good
          (reconcile_run inspect owner_alive closed now run_id actor ack process lost)
          (λ _. Good)
          Good
  unfolding reconcile_run
  Triple-reconcile_run process lost =
      Triple-guard _ _ _ (λ e g. g)
        λ _.
          Triple-bind (λ o e. Cached run_id o e) _ _ (Triple-get_run process lost run_id)
            Triple-found
