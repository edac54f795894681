-- ===== src/Runner/Traces.antt =====
-- The engine under any number of requests, workers, reconciliations and restarts, in any order.
use Prim.Native.String.{String}
use oracle_patching.Prelude.{ℕ, ◌≡◌, refl, Bool, true, Option, some, [], string_eq}
use oracle_patching.Prelude.Dict
use oracle_patching.Json
use oracle_patching.Json.{Json}
use oracle_patching.Exec.Triple.{keeps-Triple}
use oracle_patching.Runner.Record.{is_unresolved, Run, Owner, Engine, running, failed}
use oracle_patching.Runner.Work.{
  start_run, begin, log, set_execution_context, Outcome, settle, abandon,
}
use oracle_patching.Runner.Close.{get_run, Verdict, Acknowledgement, reconcile_run, restart}
use oracle_patching.Runner.Dedupe.{OnDisk, Good, change-Good, active-Good}
use oracle_patching.Runner.Steps.{start_run-Good, settle-Good, get_run-Good, Triple-reconcile_run}

-- A worker thread acts on the record that memory has under its identifier.
pub data Step (e : Engine) : Engine → Type 0 where
  starts :
      (run_id kind key : String) (now : ℕ) (owner : Owner)
      → Step e (start_run run_id kind key now owner e).1
  begins :
      (now : ℕ) (id : String) (r : Run)
      → Dict.get id e.runs ≡ some r
      → is_unresolved r.status ≡ true
      → Step e (begin now r e)
  logs : (line id : String) (r : Run) → Dict.get id e.runs ≡ some r → Step e (log line r e)
  sets_context :
      (values : Json.Fields) (id : String) (r : Run)
      → Dict.get id e.runs ≡ some r
      → Step e (set_execution_context values r e)
  settles :
      (written : Bool) (now : ℕ) (outcome : Outcome) (id : String) (r : Run)
      → Dict.get id e.runs ≡ some r
      → is_unresolved r.status ≡ true
      → Step e (settle written now outcome r e)
  abandons :
      (message : Json) (id : String) (r : Run)
      → Dict.get id e.runs ≡ some r
      → Step e (abandon message r e)
  reads : (process id : String) (lost : Json) → Step e (get_run process lost id e).1
  reconciles :
      (inspect : Run → Verdict) (owner_alive : Owner → Bool) (closed : Option String → Json)
      (now : ℕ) (run_id actor : String) (ack : Acknowledgement) (process : String) (lost : Json)
      → Step e (reconcile_run inspect owner_alive closed now run_id actor ack process lost e).1
  restarts : Step e (restart e)

pub data Reach (e : Engine) : Engine → Type 0 where
  here : Reach e e
  then' : {s t : Engine} → Reach e s → Step s t → Reach e t

failed_resolved : is_unresolved failed ≡ true → ⊥
unfolding is_unresolved
failed_resolved h = cc

nothing : (id : String) (r : Run) → Dict.get id [] ≡ some r → ⊥
nothing id r h = cc (Dict.get-nil {V = Run} id, h)

Step-Good : {e t : Engine} → Step e t → Good e → Good t
unfolding begin log set_execution_context abandon restart
Step-Good {e} (starts run_id kind key now owner) g = start_run-Good run_id kind key now owner e g
Step-Good {e} (begins now id r m u) g =
    change-Good e id r (record r { status = running; started_at = some now }) g m refl refl (λ _. u)
Step-Good {e} (logs line id r m) g = change-Good e id r _ g m refl refl (λ u. u)
Step-Good {e} (sets_context values id r m) g = change-Good e id r _ g m refl refl (λ u. u)
Step-Good {e} (settles written now outcome id r m u) g =
    settle-Good written now outcome id r e g m u
Step-Good {e} (abandons message id r m) g = active-Good _ _ (
    change-Good e id r (record r { status = failed; error = message }) g m refl refl
      (λ u. absurd (failed_resolved u)))
Step-Good {e} (reads process id lost) g = get_run-Good process lost id e g
Step-Good {e} (reconciles inspect owner_alive closed now run_id actor ack process lost) g =
    keeps-Triple _ e
      (Triple-reconcile_run inspect owner_alive closed now run_id actor ack process lost) g
Step-Good {e} restarts g = record { single = g.single; backed = λ id r m. absurd (nothing id r m) }

pub Reach-Good : {e t : Engine} → Good e → Reach e t → Good t
Reach-Good g here = g
Reach-Good g (then' r s) = Step-Good s (Reach-Good g r)

-- From an engine where no key has two files of unresolved runs and every unresolved run in memory has
-- such a file, as one with no runs, any starts, worker steps, reads, reconciliations and restarts, in any
-- order: two files of unresolved runs with one key are the same file.
pub one_unresolved :
    (e t : Engine) (i j : String) (a b : Run)
    → Good e
    → Reach e t
    → OnDisk t i a
    → OnDisk t j b
    → is_unresolved a.status ≡ true
    → is_unresolved b.status ≡ true
    → a.key ≡ b.key
    → i ≡ j
one_unresolved e t i j a b g r sa sb ua ub k = (Reach-Good g r).single i j a b sa sb ua ub k
