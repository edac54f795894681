-- ===== src/Plan/Verified.antt =====
-- What makes an inspected execution a success.
use Prim.Native.String.{String}
use oracle_patching.Prelude.{
  ℕ, ◌≡◌, refl, sym, ◌∙◌, ◌⊎◌, inl, inr, Bool, true, false, not, Option, none, some, List, arith,
  ◌==◌, nat_eq, if◌then◌else◌, string_eq,
}
use oracle_patching.Json.{Json}
use oracle_patching.Exec.{Result, ok, err, Exec, pure, >>=-eq-ok, guard-eq-ok, lift-then-eq-ok}
use oracle_patching.Plan.Nodes.{
  PlanError, uncaught, empty_name, no_ssh_alias, no_mapping, no_nodes, preflight_failed,
  no_execution_node, invalid_identity, host_changed, invalid_run_dir, no_outcome,
  outcome_contradicted, actor_required, call_failed, Host, Resolved, resolve_node_host,
}
use oracle_patching.Plan.Detached.{
  Printed, blank, unparsable, printed, parse_executor_result, Launch, is_run_dir, same_host, Polled,
  terminal, exit_code, Inspected, still_unknown, ended_failed, ended_succeeded, judge, is_status,
  finish_plan, import_result, after_poll, inspect_launch, is_caught, or_unknown,
  reconcile_detached_run,
}

judge-succeeded :
    (rc : ℕ) (out : Printed) (v : Json)
    → judge (parse_executor_result rc out) ≡ ended_succeeded v
    → (rc ≡ 0) × (out ≡ printed v)
unfolding judge parse_executor_result
judge-succeeded rc blank v h = cc
judge-succeeded rc unparsable v h = cc
judge-succeeded rc (printed Json.null) v h = cc
judge-succeeded rc (printed (Json.bool b)) v h = (ground (arith, h), ground (arith, h))
judge-succeeded rc (printed (Json.int n)) v h = (ground (arith, h), ground (arith, h))
judge-succeeded rc (printed (Json.neg n)) v h = (ground (arith, h), ground (arith, h))
judge-succeeded rc (printed (Json.real a b c)) v h = (ground (arith, h), ground (arith, h))
judge-succeeded rc (printed (Json.str t)) v h = (ground (arith, h), ground (arith, h))
judge-succeeded rc (printed (Json.arr vs)) v h = (ground (arith, h), ground (arith, h))
judge-succeeded rc (printed (Json.obj fs)) v h = (ground (arith, h), ground (arith, h))

same-test : (b a : Bool) → (if b then a else not a) ≡ true → a ≡ b
same-test true a h = h
same-test false a h = ground arith

pure-value : {S : Type 0} (i j : Inspected) (s t : S) → pure {E = PlanError} i s ≡ (ok j, t) → j ≡ i
unfolding pure
pure-value {S} i j s t h = cc

module _ {S : Type 0} (hosts : List Host) (poll : Resolved → String → Exec PlanError S Polled)
    (read_stdout : Resolved → String → Exec PlanError S Printed)
    (sync_plan : Resolved → String → Exec PlanError S (Unit {0}))
    (task_status : String → String → Exec PlanError S Json)
    (plan_state : String → Exec PlanError S String)
    (reconcile_plan : String → String → Exec PlanError S (Unit {0})) where
  -- The way of an execution that has ended, from the state `s` on: the launch is on a host that is
  -- still the same, the host answered with the exit status, and the sealed task agrees with it.
  pub record Ended (l : Launch) (s : S) (i : Inspected) : Type 0 where
    pub host : Resolved
    pub resolved : resolve_node_host hosts l.node ≡ ok host
    pub same : same_host host l ≡ true
    pub own_dir : is_run_dir host.host l ≡ true
    pub answer : Polled
    pub s1 : S
    pub polled : poll host l.run_dir s ≡ (ok answer, s1)
    pub text : String
    pub ended : terminal answer ≡ some text
    pub rc : ℕ
    pub exited : exit_code text ≡ ok rc
    pub out : Printed
    pub s2 : S
    pub read : read_stdout host l.run_dir s1 ≡ (ok out, s2)
    pub s3 : S
    pub synced : sync_plan host l.plan_id s2 ≡ (ok tt, s3)
    pub task : Json
    pub s4 : S
    pub asked : task_status l.plan_id l.task_id s3 ≡ (ok task, s4)
    pub agrees : is_status "succeeded" task ≡ (rc == 0)
    pub judged : i ≡ judge (parse_executor_result rc out)

  -- With the exit status in hand.
  import_result-agrees :
      (l : Launch) (r : Resolved) (rc : ℕ) (s : S) (i : Inspected) (t : S)
      → import_result hosts poll read_stdout sync_plan task_status plan_state reconcile_plan l r rc
          s
        ≡ (ok i, t)
      → (out : Printed) × (s2 s3 : S) × (task : Json) × (s4 : S) × (read_stdout r l.run_dir s
          ≡ (ok out, s2))
        × (sync_plan r l.plan_id s2 ≡ (ok tt, s3))
        × (task_status l.plan_id l.task_id s3 ≡ (ok task, s4))
        × (is_status "succeeded" task ≡ (rc == 0))
        × (i ≡ judge (parse_executor_result rc out))
  unfolding import_result
  import_result-agrees l r rc s i t h =
      let (out, s2, read, h1) = >>=-eq-ok (read_stdout r l.run_dir) _ s h in
      let (_, s3, synced, h2) = >>=-eq-ok (sync_plan r l.plan_id) _ s2 h1 in
      let (task, s4, asked, h3) = >>=-eq-ok (task_status l.plan_id l.task_id) _ s3 h2 in
      let (hashable, h4) = guard-eq-ok _ _ _ s4 h3 in
      let (is_terminal, h5) = guard-eq-ok _ _ _ s4 h4 in
      let (agrees, h6) = guard-eq-ok _ _ _ s4 h5 in
      let (state, s5, _, h7) = >>=-eq-ok (plan_state l.plan_id) _ s4 h6 in
      let (_, s6, _, h8) =
        >>=-eq-ok
          (finish_plan hosts poll read_stdout sync_plan task_status plan_state reconcile_plan l
            state)
          _ s5 h7 in
      (
        out,
        s2,
        s3,
        task,
        s4,
        read,
        synced,
        asked,
        same-test (rc == 0) _ agrees,
        pure-value _ i s6 t h8,
      )

  inspect_launch-Ended :
      (l : Launch) (s : S) (i : Inspected) (t : S)
      → inspect_launch hosts poll read_stdout sync_plan task_status plan_state reconcile_plan l s
        ≡ (ok i, t)
      → (i ≡ still_unknown) ⊎ Ended l s i
  unfolding inspect_launch
  inspect_launch-Ended l s i t h =
      let (_, h1) = guard-eq-ok _ _ _ s h in
      let (_, h2) = guard-eq-ok _ _ _ s h1 in
      let (r, found, h3) = lift-then-eq-ok (resolve_node_host hosts l.node) _ s h2 in
      let (same, h4) = guard-eq-ok _ _ _ s h3 in
      let (own, h5) = guard-eq-ok _ _ _ s h4 in
      let (answer, s1, polled, h6) = >>=-eq-ok (poll r l.run_dir) _ s h5 in
      after r found same own answer s1 polled (terminal answer) refl h6
    where
      after :
          (r : Resolved)
          → resolve_node_host hosts l.node ≡ ok r
          → same_host r l ≡ true
          → is_run_dir r.host l ≡ true
          → (answer : Polled) (s1 : S) → poll r l.run_dir s ≡ (ok answer, s1)
          → (o : Option String) → terminal answer ≡ o
          → after_poll hosts poll read_stdout sync_plan task_status plan_state reconcile_plan l r o
              s1
            ≡ (ok i, t)
          → (i ≡ still_unknown) ⊎ Ended l s i
      after r found same own answer s1 polled none e h =
          unfold after_poll in inl (pure-value still_unknown i s1 t h)
      after r found same own answer s1 polled (some text) e h =
          unfold after_poll in
          let (rc, exited, h1) = lift-then-eq-ok (exit_code text) _ s1 h in
          let (out, s2, s3, task, s4, read, synced, asked, agrees, judged) =
            import_result-agrees l r rc s1 i t h1 in
          inr (record {
            host = r;
            resolved = found;
            same = same;
            own_dir = own;
            answer = answer;
            s1 = s1;
            polled = polled;
            text = text;
            ended = e;
            rc = rc;
            exited = exited;
            out = out;
            s2 = s2;
            read = read;
            s3 = s3;
            synced = synced;
            task = task;
            s4 = s4;
            asked = asked;
            agrees = agrees;
            judged = judged;
          })

  -- What a reconciliation may say, by what it returns or raises.
  abbrev pub Outcome : Launch → S → Result PlanError Inspected × S → Type 0
  Outcome l s (ok still_unknown, t) = Unit {0}
  Outcome l s (ok ended_failed, t) = Ended l s ended_failed
  Outcome l s (ok (ended_succeeded v), t) =
      (e : Ended l s (ended_succeeded v)) × (e.rc ≡ 0)
      × (e.out ≡ printed v)
      × (is_status "succeeded" e.task ≡ true)
  Outcome l s (err e, t) = e ≡ uncaught

  Outcome-of :
      (l : Launch) (s t : S) (i : Inspected)
      → (i ≡ still_unknown) ⊎ Ended l s i
      → Outcome l s (ok i, t)
  Outcome-of l s t still_unknown e = tt
  Outcome-of l s t ended_failed (inl h) = cc
  Outcome-of l s t ended_failed (inr e) = e
  Outcome-of l s t (ended_succeeded v) (inl h) = cc
  Outcome-of l s t (ended_succeeded v) (inr e) =
      let (zero_exit, out) = judge-succeeded e.rc e.out v (sym e.judged) in
      (e, zero_exit, out, e.agrees ∙ ground (arith, zero_exit))

  -- A reconciliation of a detached execution returns, unless a call raises an exception that is none
  -- of the four kinds caught. Where it says that the execution has ended, the launch was recorded for
  -- a host whose alias, root and identifier are still those of hosts.json and for a run directory of
  -- its own plan and task, the host's answer to the poll, in the state at the start, has the exit
  -- status, and the sealed task, asked for after the plan came back from the host, is verified as
  -- succeeded exactly where that status is 0. Where it says that the execution succeeded, the status
  -- is 0, the sealed task is verified as succeeded, and the value is what the executor printed.
  pub reconcile_detached_run-Success :
      (l : Launch) (s : S)
      → Outcome l s (
          reconcile_detached_run hosts poll read_stdout sync_plan task_status plan_state
            reconcile_plan l s)
  unfolding reconcile_detached_run or_unknown is_caught
  reconcile_detached_run-Success l s = go _ (inspect_launch-Ended l s)
    where
      go :
          (x : Result PlanError Inspected × S)
          → ((i : Inspected) (t : S) → x ≡ (ok i, t) → (i ≡ still_unknown) ⊎ Ended l s i)
          → Outcome l s (or_unknown x)
      go (ok i, t) h = Outcome-of l s t i (h i t refl)
      go (err uncaught, t) h = refl
      go (err empty_name, t) h = tt
      go (err no_ssh_alias, t) h = tt
      go (err no_mapping, t) h = tt
      go (err no_nodes, t) h = tt
      go (err preflight_failed, t) h = tt
      go (err no_execution_node, t) h = tt
      go (err invalid_identity, t) h = tt
      go (err host_changed, t) h = tt
      go (err invalid_run_dir, t) h = tt
      go (err no_outcome, t) h = tt
      go (err outcome_contradicted, t) h = tt
      go (err actor_required, t) h = tt
      go (err call_failed, t) h = tt
