-- ===== src/Runner/Verdicts.antt =====
-- What closes a run of unknown outcome.
use Prim.Native.String.{String}
use oracle_patching.Prelude.{
  ℕ, ◌≡◌, refl, sym, ap, subst, ◌∙◌, inl, inr, Bool, true, false, not, ◌&&◌, Option, none, some,
  arith, Bool-cases, ◌==◌, string_eq, if◌then◌else◌,
}
use oracle_patching.Prelude.Text.{codes, is_hex}
use oracle_patching.Prelude.Dict
use oracle_patching.Json.{Json}
use oracle_patching.Exec.{
  Result, ok, ok_inj, pure, modify, ◌>>=◌, ◌>>◌, some_or, some_or-eq-ok, >>=-eq-ok, guard-eq-ok,
  lift-then-eq-ok,
}
use oracle_patching.Runner.Record.{
  Run, Owner, Engine, File, unreadable, saved, RunError, unknown_run, to_json, failed, unknown,
  is_unresolved, save,
}
use oracle_patching.Runner.Work.{is_set, release_key}
use oracle_patching.Runner.Close.{
  loaded, load_persisted, cache, get_run, is_closable, is_verdict, has_note, Verdict,
  Acknowledgement, verdict_of, closed_run, close_found, reconcile_run,
}

some_inj : (a b : Run) → ◌≡◌ {A = Option Run} (some a) (some b) → a ≡ b
some_inj a b h = cc

found :
    {x : Option Run} {r : Run} {s t : Engine}
    → ◌≡◌ {A = Result RunError (Option Run) × Engine} (ok x, s) (ok (some r), t)
    → x ≡ some r
found {x} {r} h = ok_inj x (some r) (ap (λ (y : Result RunError (Option Run) × Engine). y.0) h)

-- The verdict comes from the managed host for a detached execution, and from the operator otherwise,
-- who confirmed with a note that nothing runs, after the owner's process is gone.
pub record Grounded (inspect : Run → Verdict) (owner_alive : Owner → Bool) (ack : Acknowledgement)
    (r : Run) (v : Verdict) : Type 0 where
  pub detached :
      is_set "detached_execution" r ≡ true → (v ≡ inspect r) × (is_verdict v.status ≡ true)
  pub by_hand :
      is_set "detached_execution" r ≡ false
      → (ack.confirmed ≡ true)
        × (has_note ack.note ≡ true)
        × (owner_alive r.owner ≡ false)
        × (v.status ≡ failed)

verdict_of-Grounded :
    (inspect : Run → Verdict) (owner_alive : Owner → Bool) (closed : Option String → Json)
    (ack : Acknowledgement) (r : Run) (v : Verdict)
    → verdict_of inspect owner_alive closed ack r ≡ ok v
    → Grounded inspect owner_alive ack r v
unfolding verdict_of
verdict_of-Grounded inspect owner_alive closed ack r v h =
    elim (Bool-cases (is_set "detached_execution" r)) [
      | inl t ↦ elim (Bool-cases (is_verdict (inspect r).status)) [
        | inl fits ↦
            let same = ok_inj (inspect r) v (rw (t, fits) at h) in
            record {
              detached =
                  λ _. (sym same, ap (λ (x : Verdict). is_verdict x.status) (sym same) ∙ fits);
              by_hand = λ f. cc (t, f);
            }
        | inr f ↦ absurd (cc (rw (t, f) at h))
      ]
      | inr n ↦
          elim (Bool-cases (ack.confirmed && has_note ack.note && not (owner_alive r.owner))) [
            | inl fits ↦ record {
              detached = λ t. cc (t, n);
              by_hand = λ _. (
                ground (arith, fits),
                ground (arith, fits),
                ground (arith, fits),
                ap (λ (x : Verdict). x.status) (sym (ok_inj _ v (rw (n, fits) at h))),
              );
            }
            | inr f ↦ absurd (cc (rw (n, f) at h))
          ]
    ]

-- The record of the identifier: the one in memory, or else the one of its file, which is unknown where
-- another process left it unresolved.
pub data Found (process : String) (lost : Json) (run_id : String) (e : Engine) : Run → Type 0 where
  in_memory : {r : Run} → Dict.get run_id e.runs ≡ some r → Found process lost run_id e r
  on_disk :
      {r : Run}
      → Dict.get run_id e.runs ≡ none
      → Dict.get run_id e.disk ≡ some (saved r)
      → (is_unresolved r.status && not (r.owner.process == process)) ≡ false
      → Found process lost run_id e (record r { run_id = run_id })
  left :
      {r : Run}
      → Dict.get run_id e.runs ≡ none
      → Dict.get run_id e.disk ≡ some (saved r)
      → (is_unresolved r.status && not (r.owner.process == process)) ≡ true
      → Found process lost run_id e (record r { run_id = run_id; status = unknown; error = lost })

load_persisted-Found :
    (process : String) (lost : Json) (run_id : String) (e : Engine) {r : Run}
    → Dict.get run_id e.runs ≡ none
    → load_persisted process lost run_id e ≡ some r
    → Found process lost run_id e r
unfolding load_persisted
load_persisted-Found process lost run_id e {r} absent h =
    elim (Bool-cases (is_hex 12 (codes run_id))) [
      | inr f ↦ cc (rw f at h)
      | inl t ↦ go (Dict.get run_id e.disk) refl (rw t at h)
    ]
  where
    left_or_not :
        (r0 : Run)
        → Dict.get run_id e.disk ≡ some (saved r0)
        → Found process lost run_id e (record (loaded process lost r0) { run_id = run_id })
    left_or_not r0 st =
        unfold loaded in
        elim (Bool-cases (is_unresolved r0.status && not (r0.owner.process == process))) [
          | inl b ↦ rw b (left absent st b)
          | inr b ↦ rw b (on_disk absent st b)
        ]

    go :
        (o : Option File)
        → Dict.get run_id e.disk ≡ o
        → (elim o [
          | none ↦ none
          | some unreadable ↦ none
          | some (saved r0) ↦ some (record (loaded process lost r0) { run_id = run_id })
        ])
          ≡ some r
        → Found process lost run_id e r
    go none st k = cc
    go (some unreadable) st k = cc
    go (some (saved r0)) st k =
        subst (Found process lost run_id e) (some_inj _ _ k) (left_or_not r0 st)

get_run-Found :
    (process : String) (lost : Json) (run_id : String) (e s : Engine) (r : Run)
    → get_run process lost run_id e ≡ (ok (some r), s)
    → Found process lost run_id e r × (s.disk ≡ e.disk)
unfolding get_run cache
get_run-Found process lost run_id e s r h = go (Dict.get run_id e.runs) refl h
  where
    cached : (o : Option Run) → (cache run_id o e).disk ≡ e.disk
    cached none = refl
    cached (some x) = refl

    go :
        (o : Option Run)
        → Dict.get run_id e.runs ≡ o
        → ◌≡◌ {A = Result RunError (Option Run) × Engine}
            (elim o [
              | some x ↦ (ok (some x), e)
              | none ↦ (
                ok (load_persisted process lost run_id e),
                cache run_id (load_persisted process lost run_id e) e,
              )
            ])
            (ok (some r), s)
        → Found process lost run_id e r × (s.disk ≡ e.disk)
    go (some x) st k = (
      in_memory (st ∙ found k),
      sym (ap (λ (y : Result RunError (Option Run) × Engine). y.1.disk) k),
    )
    go none st k = (
      load_persisted-Found process lost run_id e st (found k),
      sym (ap (λ (y : Result RunError (Option Run) × Engine). y.1.disk) k)
          ∙ cached (load_persisted process lost run_id e),
    )

-- The run as it is closed: by the actor, with the verdict, and otherwise as it was found.
pub record ClosedBy (actor : String) (now : ℕ) (note : Option String) (v : Verdict) (r c : Run)
    : Type 0 where
  pub run_id : c.run_id ≡ r.run_id
  pub kind : c.kind ≡ r.kind
  pub key : c.key ≡ r.key
  pub owner : c.owner ≡ r.owner
  pub context : c.context ≡ r.context
  pub log_lines : c.log_lines ≡ r.log_lines
  pub status : c.status ≡ v.status
  pub result : c.result ≡ v.result
  pub error : c.error ≡ v.error
  pub reconciliation :
      c.reconciliation ≡ some (record { actor = actor; at = now; note = note; status = v.status })

release_key-disk : (c : Run) (e : Engine) → (release_key c e).disk ≡ e.disk
unfolding release_key
release_key-disk c e = ground arith

pushed :
    (c : Run) (s t : Engine) (x : Run)
    → (modify {E = RunError} (save c) >> (modify (release_key c) >> pure (to_json c))) s ≡ (ok x, t)
    → (x ≡ to_json c) × (t ≡ release_key c (save c s))
unfolding ◌>>=◌ modify pure
pushed c s t x h = (
  sym (ok_inj _ _ (ap (λ (y : Result RunError Run × Engine). y.0) h)),
  sym (ap (λ (y : Result RunError Run × Engine). y.1) h),
)

-- A reconciliation of a run that returns: the record of the identifier, in memory or else in its
-- file, was unknown or reconciling, and is closed with a verdict that is what `inspect` found for a
-- detached execution, and otherwise a failure that the operator confirmed with a note while the
-- owner's process was gone. The record shown is the run so closed, its file now holds it, and the
-- file of any other run is as it was.
pub reconcile_run-Grounded :
    (inspect : Run → Verdict) (owner_alive : Owner → Bool) (closed : Option String → Json) (now : ℕ)
    (run_id actor : String) (ack : Acknowledgement) (process : String) (lost : Json) (e e' : Engine)
    {shown : Run}
    → reconcile_run inspect owner_alive closed now run_id actor ack process lost e ≡ (ok shown, e')
    → (r c : Run) × (v : Verdict) × Found process lost run_id e r
      × (is_closable r.status ≡ true)
      × Grounded inspect owner_alive ack r v
      × ClosedBy actor now ack.note v r c
      × (shown ≡ to_json c)
      × ((id : String)
          → Dict.get id e'.disk
            ≡ (if r.run_id == id then some (saved (to_json c)) else Dict.get id e.disk))
unfolding reconcile_run close_found save
reconcile_run-Grounded inspect owner_alive closed now run_id actor ack process lost e e' {shown} h =
    let (_, h1) = guard-eq-ok _ _ _ e h in
    let (found_run, s, found_in, h2) = >>=-eq-ok (get_run process lost run_id) _ e h1 in
    let (r, is_found, h3) = lift-then-eq-ok (some_or unknown_run found_run) _ s h2 in
    let (closable, h4) = guard-eq-ok _ _ _ s h3 in
    let (v, given, h5) = lift-then-eq-ok (verdict_of inspect owner_alive closed ack r) _ s h4 in
    let (source, disk) =
      get_run-Found process lost run_id e s r
        (found_in ∙ ap (λ x. (ok x, s)) (some_or-eq-ok unknown_run found_run is_found)) in
    let c = closed_run actor now ack.note v r in
    let (shown_c, after) = pushed c s e' shown h5 in
    (
      r,
      c,
      v,
      source,
      closable,
      verdict_of-Grounded inspect owner_alive closed ack r v given,
      unfold closed_run in
          record {
            run_id = refl;
            kind = refl;
            key = refl;
            owner = refl;
            context = refl;
            log_lines = refl;
            status = refl;
            result = refl;
            error = refl;
            reconciliation = refl;
          },
      shown_c,
      λ id.
          ap (λ (x : Engine). Dict.get id x.disk) after
          ∙ ap (Dict.get id) (release_key-disk c (save c s))
          ∙ Dict.get-put r.run_id id (saved (to_json c)) s.disk
          ∙ ap (λ d. if r.run_id == id then some (saved (to_json c)) else Dict.get id d) disk,
    )
