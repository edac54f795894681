-- ===== src/Plan/Scenarios.antt =====
-- A plan of two tasks on two nodes, and the theorems on it.
use Prim.Native.String.{String}
use mathlib.Core.List.{Memᴰ}
use oracle_patching.Prelude.{
  ◌≤◌, ◌≡◌, refl, false, Option, none, some, List, [], ◌∷◌, ◌==◌, string_eq, length, all,
}
use oracle_patching.Prelude.Text.{
  codes, lower, strip, id_match, id_fullmatch, is_hex, starts_with, after_prefix, strip_slashes,
  digits,
}
use oracle_patching.Prelude.Dict
use oracle_patching.Json
use oracle_patching.Json.{Json}
use oracle_patching.Exec.{ok, err, Exec, ◌>>=◌}
use oracle_patching.Plan.Nodes.{
  PlanError, Host, Resolved, Target, short_host, preflight_failed, resolve_node_host,
  task_execution_node, resolve_live_host_for_task,
}
use oracle_patching.Plan.Detached.{
  Launch, printed, Inspected, still_unknown, ended_succeeded, reconcile_detached_run,
}
use oracle_patching.Plan.Verified.{Outcome, reconcile_detached_run-Success}
use oracle_patching.Plan.Poll.{Poll, exited, poll_loop, Exited, poll_loop-Exited}
use oracle_patching.Plan.Wired.{resolve_live_host_wired}
use oracle_patching.Plan.Execute.{ExecuteError, task_stopped, Report, execute_remaining_tasks}
use oracle_patching.Plan.Orderly.{Orderly, execute_remaining_tasks-Orderly}

abbrev rac : (second : Option String) → Host
rac second = record {
  id = "rac";
  ssh_alias = "rac-gw";
  remote_root = "/opt/opu/";
  nodes =
      record { name = "DB1.example.com"; ssh_alias = none }
      ∷ record { name = "db2"; ssh_alias = second }
      ∷ [];
}

abbrev target : Target
target = record { coordinator_node = "db2"; nodes = "db1" ∷ "db2.example.com" ∷ [] }

abbrev second_node : Resolved
second_node = record {
  host = rac (some "ssh-db2");
  ssh_alias = "ssh-db2";
  node_name = short_host "db2";
}

found : resolve_live_host_for_task (rac (some "ssh-db2") ∷ []) target "local" ≡ ok second_node
unfolding resolve_live_host_for_task codes lower all Dict.put
found = refl

-- A node with the alias null stops every task of the plan.
not_wired : resolve_live_host_for_task (rac (some "") ∷ []) target "db1" ≡ err preflight_failed
unfolding resolve_live_host_for_task codes lower all Dict.put
not_wired = refl

resolve_live_host_wired_example :
    ((name : String)
      → Memᴰ name target.nodes
      → (s : Resolved) × (resolve_node_host (rac (some "ssh-db2") ∷ []) name ≡ ok s)
        × ((s.ssh_alias == "") ≡ false))
    × ((chosen : String) × (task_execution_node target "local" ≡ ok chosen)
        × (resolve_node_host (rac (some "ssh-db2") ∷ []) chosen ≡ ok second_node)
        × ((second_node.ssh_alias == "") ≡ false))
resolve_live_host_wired_example =
    resolve_live_host_wired (rac (some "ssh-db2") ∷ []) target "local" second_node found

abbrev show : Json → String
show v = "?"

abbrev outcome : String → Json
outcome status = Json.obj (Json.field "status" (Json.str status) Json.end)

-- The state is the outcomes that the next tasks will have.
abbrev status : Exec ExecuteError (List String) String
status s = (ok "running", s)

abbrev next_task : Exec ExecuteError (List String) (Option Json)
next_task [] = (ok none, [])
next_task (s ∷ ss) = (ok (some (outcome s)), ss)

abbrev run_task : Json → Exec ExecuteError (List String) Json
run_task t s = (ok t, s)

abbrev report : Report
report = record {
  executed_count = 2;
  stopped_reason = task_stopped;
  final_state = "running";
  task_results = outcome "succeeded" ∷ outcome "Failed" ∷ [];
}

stops :
    execute_remaining_tasks show status next_task run_task 3
      ("succeeded" ∷ "Failed" ∷ "succeeded" ∷ [])
    ≡ (ok report, "succeeded" ∷ [])
unfolding execute_remaining_tasks ◌>>=◌ codes lower
stops = refl

execute_remaining_tasks-Orderly_example :
    (1 ≤ 3)
    × (3 ≤ 500)
    × (report.executed_count ≡ length report.task_results)
    × Orderly show 3 report.task_results report.stopped_reason
execute_remaining_tasks-Orderly_example =
    execute_remaining_tasks-Orderly show status next_task run_task 3
      ("succeeded" ∷ "Failed" ∷ "succeeded" ∷ []) ("succeeded" ∷ []) stops

abbrev launch : Launch
launch = record {
  plan_id = "plan1";
  task_id = "task1";
  node = "db2";
  ssh_alias = "ssh-db2";
  remote_root = "/opt/opu/";
  host_id = "rac";
  run_dir = "/opt/opu/var/webapp-runs/plan1/task1/0123456789abcdef0123456789abcdef";
  actor = "ann";
}

abbrev hosts : List Host
hosts = rac (some "ssh-db2") ∷ []

-- The host answers with the exit status, and the sealed task has the status `state`.
abbrev inspected : (rc state : String) → Exec PlanError (Unit {0}) Inspected
inspected rc state =
    reconcile_detached_run hosts
      (λ r dir s. (ok (record { returncode = 0; lines = "RC" ∷ rc ∷ [] }), s))
      (λ r dir s. (ok (printed (outcome "ok")), s)) (λ r plan s. (ok tt, s))
      (λ plan task s. (ok (outcome state), s)) (λ plan s. (ok "running", s))
      (λ plan actor s. (ok tt, s)) launch

succeeds : inspected "0" "succeeded" tt ≡ (ok (ended_succeeded (outcome "ok")), tt)
unfolding reconcile_detached_run ◌>>=◌ codes lower strip id_match id_fullmatch is_hex starts_with
    after_prefix strip_slashes digits Dict.put
succeeds = refl

-- Where the exit status and the sealed task disagree the outcome stays unknown.
contradicted : inspected "0" "failed" tt ≡ (ok still_unknown, tt)
unfolding reconcile_detached_run ◌>>=◌ codes lower strip id_match id_fullmatch is_hex starts_with
    after_prefix strip_slashes digits Dict.put
contradicted = refl

reconcile_detached_run-Success_example :
    Outcome {S = Unit {0}} hosts
      (λ r dir s. (ok (record { returncode = 0; lines = "RC" ∷ "0" ∷ [] }), s))
      (λ r dir s. (ok (printed (outcome "ok")), s))
      (λ r plan s. (ok tt, s))
      (λ plan task s. (ok (outcome "succeeded"), s))
      (λ plan s. (ok "running", s))
      (λ plan actor s. (ok tt, s))
      launch
      tt
      (inspected "0" "succeeded" tt)
reconcile_detached_run-Success_example =
    reconcile_detached_run-Success hosts
      (λ r dir s. (ok (record { returncode = 0; lines = "RC" ∷ "0" ∷ [] }), s))
      (λ r dir s. (ok (printed (outcome "ok")), s)) (λ r plan s. (ok tt, s))
      (λ plan task s. (ok (outcome "succeeded"), s)) (λ plan s. (ok "running", s))
      (λ plan actor s. (ok tt, s)) launch tt

abbrev polls : List Poll
polls =
    Poll.failed
    ∷ Poll.answered ("RUNNING" ∷ []) 10
    ∷ Poll.failed
    ∷ Poll.answered ("RC" ∷ "3" ∷ []) 20
    ∷ []

exits : poll_loop 3600 0 polls ≡ exited 3
unfolding poll_loop codes strip digits
exits = refl

poll_loop-Exited_example : Exited 3600 polls 3
poll_loop-Exited_example = poll_loop-Exited 3600 0 3 polls exits
