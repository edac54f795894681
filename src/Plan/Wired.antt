-- ===== src/Plan/Wired.antt =====
-- Live execution goes only to hosts that are wired for ssh, and only where all of the plan's nodes are.
use Prim.Native.String.{String}
use mathlib.Core.List.{Memᴰ}
use oracle_patching.Prelude.{
  ℕ, ◌≡◌, refl, sym, ap, ◌∙◌, true, false, List, [], ◌∷◌, arith, ◌==◌, string_eq, Bool-cases, inl,
  inr, all, all-eq-true,
}
use oracle_patching.Prelude.Text.{codes_eq}
use oracle_patching.Exec.{Result, ok, err, ok_inj, and_then-eq-ok}
use oracle_patching.Plan.Nodes.{
  PlanError, Node, Host, Resolved, Target, alias_of, by_host_id, by_node, short_host, is_empty,
  resolve_node_host, resolves, preflight_live_plan_nodes, task_execution_node,
  resolve_live_host_for_task, load_hosts, iter_host_nodes,
}

by_host_id-alias :
    (want : List ℕ) (hs : List Host) (r : Resolved)
    → by_host_id want hs ≡ ok r
    → (r.ssh_alias == "") ≡ false
unfolding by_host_id
by_host_id-alias want [] r h = cc
by_host_id-alias want (x ∷ hs) r h = elim (Bool-cases (x.ssh_alias == "")) [
  | inl t ↦ by_host_id-alias want hs r (ground (arith, t, h))
  | inr f ↦ elim (Bool-cases (codes_eq (short_host x.id) want)) [
    | inl t ↦ ap (λ (y : Resolved). y.ssh_alias == "") (sym (ok_inj _ r (rw (t, f) at h))) ∙ f
    | inr n ↦ by_host_id-alias want hs r (rw n at h)
  ]
]

by_node-alias :
    (want : List ℕ) (hosts : List Host) (ps : List (Host × Node)) (r : Resolved)
    → by_node want hosts ps ≡ ok r
    → (r.ssh_alias == "") ≡ false
unfolding by_node
by_node-alias want hosts [] r h = by_host_id-alias want hosts r h
by_node-alias want hosts ((x, n) ∷ ps) r h = elim (Bool-cases (codes_eq (short_host n.name) want)) [
  | inl t ↦ elim (Bool-cases (alias_of x n == "")) [
    | inl e ↦ absurd (cc (rw (t, e) at h))
    | inr f ↦ ap (λ (y : Resolved). y.ssh_alias == "") (sym (ok_inj _ r (rw (t, f) at h))) ∙ f
  ]
  | inr m ↦ by_node-alias want hosts ps r (rw m at h)
]

resolve_node_host-alias :
    (hosts : List Host) (name : String) (r : Resolved)
    → resolve_node_host hosts name ≡ ok r
    → (r.ssh_alias == "") ≡ false
unfolding resolve_node_host
resolve_node_host-alias hosts name r h = elim (Bool-cases (is_empty (short_host name))) [
  | inl t ↦ absurd (cc (rw t at h))
  | inr f ↦
      by_node-alias (short_host name) (load_hosts hosts) (iter_host_nodes (load_hosts hosts)) r
        (rw f at h)
]

resolves-ok :
    (hosts : List Host) (name : String)
    → resolves hosts name ≡ true
    → (r : Resolved) × (resolve_node_host hosts name ≡ ok r)
unfolding resolves
resolves-ok hosts name h = go (resolve_node_host hosts name) refl h
  where
    go :
        (x : Result PlanError Resolved)
        → resolve_node_host hosts name ≡ x
        → (elim x [ ok r ↦ true | err e ↦ false ]) ≡ true
        → (r : Resolved) × (resolve_node_host hosts name ≡ ok r)
    go (ok r) e h = (r, e)
    go (err x) e h = cc

preflight-all :
    (hosts : List Host) (nodes : List String) {u : Unit {0}}
    → preflight_live_plan_nodes hosts nodes ≡ ok u
    → all (resolves hosts) nodes ≡ true
unfolding preflight_live_plan_nodes
preflight-all hosts [] h = cc
preflight-all hosts (n ∷ ns) h = ground (arith, h)

-- A live host that is found for a task: every sealed node of the plan resolves to a host with an ssh
-- alias, and the host is the one of the task's execution node, with an ssh alias too.
pub resolve_live_host_wired :
    (hosts : List Host) (t : Target) (node : String) (r : Resolved)
    → resolve_live_host_for_task hosts t node ≡ ok r
    → ((name : String)
        → Memᴰ name t.nodes
        → (s : Resolved) × (resolve_node_host hosts name ≡ ok s) × ((s.ssh_alias == "") ≡ false))
      × ((chosen : String) × (task_execution_node t node ≡ ok chosen)
          × (resolve_node_host hosts chosen ≡ ok r)
          × ((r.ssh_alias == "") ≡ false))
unfolding resolve_live_host_for_task
resolve_live_host_wired hosts t node r h =
    let (_, passed, h1) = and_then-eq-ok (preflight_live_plan_nodes hosts t.nodes) _ h in
    let (chosen, is_chosen, found) = and_then-eq-ok (task_execution_node t node) _ h1 in
    (
      λ name m.
          let (s, e) =
            resolves-ok hosts name
              (all-eq-true (resolves hosts) t.nodes name (preflight-all hosts t.nodes passed) m) in
          (s, e, resolve_node_host-alias hosts name s e),
      (chosen, is_chosen, found, resolve_node_host-alias hosts chosen r found),
    )
