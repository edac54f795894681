-- ===== src/Runner/Scenarios.antt =====
-- One run of a plan's execution whose controller is lost, and the theorems on it.
use Prim.Native.String.{String}
use oracle_patching.Prelude.{
  ◌≡◌, refl, true, false, none, some, [], ◌∷◌, ◌==◌, string_eq, if◌then◌else◌,
}
use oracle_patching.Prelude.Text.{codes, strip, is_hex}
use oracle_patching.Prelude.Dict
use oracle_patching.Json
use oracle_patching.Json.{Json}
use oracle_patching.Exec.{ok, err, ◌>>=◌}
use oracle_patching.Runner.Record.{
  Run, Owner, Engine, saved, unknown, failed, new_run, to_json, is_unresolved,
}
use oracle_patching.Runner.Work.{start_run}
use oracle_patching.Runner.Close.{
  restart, reconcile_run, Verdict, Acknowledgement, closed_run, is_closable,
}
use oracle_patching.Runner.Dedupe.{Good, OnDisk}
use oracle_patching.Runner.Start.{Started, start_run-Started}
use oracle_patching.Runner.Traces.{starts, restarts, Reach, here, then', one_unresolved}
use oracle_patching.Runner.Verdicts.{Found, Grounded, ClosedBy, reconcile_run-Grounded}

abbrev owner : Owner
owner = record { pid = 41; process = "first" }

abbrev empty : Engine
empty = record { disk = []; runs = []; active = [] }

abbrev run : Run
run = record {
  run_id = "0123456789ab";
  kind = "execute";
  key = "plan1";
  status = oracle_patching.Runner.Record.queued;
  created_at = 5;
  started_at = none;
  finished_at = none;
  log_lines = [];
  result = Json.null;
  error = Json.null;
  owner = owner;
  context = Json.end;
  reconciliation = none;
}

abbrev started : Engine
started = record {
  disk = ("0123456789ab", saved run) ∷ [];
  runs = ("0123456789ab", run) ∷ [];
  active = ("plan1", "0123456789ab") ∷ [];
}

empty-Good : Good empty
unfolding Dict.get
empty-Good = record { single = λ i j a b sa sb ua ub k. cc; backed = λ id r m. cc }

start_first : start_run "0123456789ab" "execute" "plan1" 5 owner empty ≡ (ok run, started)
unfolding start_run ◌>>=◌ Dict.get Dict.put
start_first = refl

-- After a restart the file still keeps a second run of the key out.
start_after_restart :
    start_run "ffffffffffff" "execute" "plan1" 6 owner (restart started)
    ≡ (err (oracle_patching.Runner.Record.already_active "0123456789ab"), restart started)
unfolding start_run restart ◌>>=◌ Dict.get Dict.put
start_after_restart = refl

start_run-Started_example : Started "0123456789ab" "execute" "plan1" 5 owner empty run started
start_run-Started_example =
    start_run-Started "0123456789ab" "execute" "plan1" 5 owner empty started start_first

two_steps-Reach : Reach empty (restart (start_run "0123456789ab" "execute" "plan1" 5 owner empty).1)
two_steps-Reach = then' (then' here (starts "0123456789ab" "execute" "plan1" 5 owner)) restarts

two_steps-OnDisk :
    OnDisk (restart (start_run "0123456789ab" "execute" "plan1" 5 owner empty).1) "0123456789ab" run
unfolding start_run restart ◌>>=◌ Dict.get Dict.put
two_steps-OnDisk = refl

one_unresolved_example : ◌≡◌ {A = String} "0123456789ab" "0123456789ab"
unfolding is_unresolved
one_unresolved_example =
    one_unresolved empty (restart (start_run "0123456789ab" "execute" "plan1" 5 owner empty).1)
      "0123456789ab" "0123456789ab" run run empty-Good two_steps-Reach two_steps-OnDisk
      two_steps-OnDisk refl refl refl

abbrev ack : Acknowledgement
ack = record { confirmed = true; note = some "checked on the host" }

abbrev inspect : Run → Verdict
inspect r = record { status = unknown; result = Json.null; error = Json.null }

abbrev lost_run : Run
lost_run = record run { status = unknown; error = Json.str "lost" }

abbrev by_hand : Verdict
by_hand = record { status = failed; result = Json.null; error = Json.str "closed" }

reconcile_lost :
    reconcile_run inspect
      (λ o. false)
      (λ n. Json.str "closed")
      9
      "0123456789ab"
      "ann"
      ack
      "second"
      (Json.str "lost")
      (restart started)
    ≡ (
      ok (closed_run "ann" 9 (some "checked on the host") by_hand lost_run),
      record {
        disk =
            (
              "0123456789ab",
              saved (closed_run "ann" 9 (some "checked on the host") by_hand lost_run),
            )
            ∷ [];
        runs =
            ("0123456789ab", closed_run "ann" 9 (some "checked on the host") by_hand lost_run) ∷ [];
        active = [];
      },
    )
unfolding reconcile_run restart ◌>>=◌ Dict.get Dict.put strip is_hex codes
reconcile_lost = refl

reconcile_run-Grounded_example :
    (r c : Run) × (v : Verdict) × Found "second"
      (Json.str "lost")
      "0123456789ab"
      (restart started)
      r
    × (is_closable r.status ≡ true)
    × Grounded inspect (λ o. false) ack r v
    × ClosedBy "ann" 9 ack.note v r c
    × (closed_run "ann" 9 (some "checked on the host") by_hand lost_run ≡ to_json c)
    × ((id : String)
        → Dict.get id (
            (
              "0123456789ab",
              saved (closed_run "ann" 9 (some "checked on the host") by_hand lost_run),
            )
            ∷ [])
          ≡ (if r.run_id == id
              then some (saved (to_json c))
              else Dict.get id (restart started).disk))
reconcile_run-Grounded_example =
    reconcile_run-Grounded inspect (λ o. false) (λ n. Json.str "closed") 9 "0123456789ab" "ann" ack
      "second" (Json.str "lost") (restart started) _ reconcile_lost
