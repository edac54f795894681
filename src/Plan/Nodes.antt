-- ===== src/Plan/Nodes.antt =====
-- The hosts of a plan's nodes: `_resolve_node_host`, `preflight_live_plan_nodes`,
-- `_task_execution_node`, `_resolve_live_host_for_task` of webapp/planctl.py. The file hosts.json is
-- an argument; a text that it does not give, or gives as null, is "".
use Prim.Native.Char.{code}
use oracle_patching.Prelude.{
  ℕ, String, Bool, true, false, not, ◌&&◌, ◌||◌, Option, none, some, List, [], ◌∷◌, ◌++◌, ◌==◌,
  nat_eq, string_eq, all, if◌then◌else◌,
}
use oracle_patching.Prelude.Text.{codes, lower, codes_eq}
use oracle_patching.Prelude.Dict
use oracle_patching.Exec.{Result, ok, err, and_then}

pub data PlanError : Type 0 where
  empty_name no_ssh_alias no_mapping no_nodes preflight_failed no_execution_node : PlanError
  invalid_identity host_changed invalid_run_dir no_outcome outcome_contradicted : PlanError
  actor_required call_failed : PlanError
  -- an exception that is no `PlanError`, `RemoteError`, `ValueError` or `OSError`
  uncaught : PlanError

-- `ssh_alias` is none where the node has no such key.
pub record Node : Type 0 where
  pub name : String
  pub ssh_alias : Option String

-- `nodes` is empty where the host has none.
pub record Host : Type 0 where
  pub id : String
  pub ssh_alias : String
  pub remote_root : String
  pub nodes : List Node

-- `name.split(".", 1)[0]`, as code points
unfoldable pub before_dot : String → List ℕ
before_dot String.[] = []
before_dot (String.◌∷◌ c s) =
    let rest = before_dot s in if code c == b'.' then [] else code c ∷ rest

unfoldable pub short_host : String → List ℕ
unfolding before_dot lower
short_host name = lower (before_dot name)

-- `{host["id"]: host for host in data["hosts"]}`
unfoldable pub by_id : List Host → List (String × Host) → List (String × Host)
unfolding Dict.put
by_id [] out = out
by_id (h ∷ hs) out = by_id hs (Dict.put h.id h out)

unfoldable pub values : List (String × Host) → List Host
values [] = []
values ((k, h) ∷ d) = h ∷ values d

unfoldable pub load_hosts : List Host → List Host
unfolding by_id values
load_hosts hosts = values (by_id hosts [])

-- The nodes of a host, or the one that stands for the host itself.
unfoldable pub nodes_of : Host → List Node
nodes_of h = elim h.nodes [
  | [] ↦ record { name = h.id; ssh_alias = some h.ssh_alias } ∷ []
  | n ∷ ns ↦ n ∷ ns
]

unfoldable pub pair_with : Host → List Node → List (Host × Node)
pair_with h [] = []
pair_with h (n ∷ ns) = (h, n) ∷ pair_with h ns

unfoldable pub iter_host_nodes : List Host → List (Host × Node)
unfolding nodes_of pair_with
iter_host_nodes [] = []
iter_host_nodes (h ∷ hs) = pair_with h (nodes_of h) ++ iter_host_nodes hs

-- The host with its `ssh_alias` replaced, and its `node_name`.
pub record Resolved : Type 0 where
  pub host : Host
  pub ssh_alias : String
  pub node_name : List ℕ

unfoldable pub alias_of : Host → Node → String
alias_of h n = elim n.ssh_alias [ none ↦ h.ssh_alias | some a ↦ a ]

-- The second loop: hosts by their own identifier.
unfoldable pub by_host_id : List ℕ → List Host → Result PlanError Resolved
unfolding short_host codes_eq
by_host_id want [] = err no_mapping
by_host_id want (h ∷ hs) =
    let rest = by_host_id want hs in
    if codes_eq (short_host h.id) want && (if h.ssh_alias == "" then false else true)
    then ok (record { host = h; ssh_alias = h.ssh_alias; node_name = want })
    else rest

-- The first loop: the first node of that name decides.
unfoldable pub by_node : List ℕ → List Host → List (Host × Node) → Result PlanError Resolved
unfolding short_host codes_eq alias_of by_host_id
by_node want hosts [] = by_host_id want hosts
by_node want hosts ((h, n) ∷ ps) =
    let rest = by_node want hosts ps in
    if codes_eq (short_host n.name) want
    then (if alias_of h n == ""
        then err no_ssh_alias
        else ok (record { host = h; ssh_alias = alias_of h n; node_name = short_host n.name }))
    else rest

unfoldable pub is_empty : List ℕ → Bool
is_empty [] = true
is_empty (c ∷ cs) = false

unfoldable pub resolve_node_host : List Host → String → Result PlanError Resolved
unfolding short_host is_empty by_node iter_host_nodes load_hosts
resolve_node_host hosts name =
    if is_empty (short_host name)
    then err empty_name
    else by_node (short_host name) (load_hosts hosts) (iter_host_nodes (load_hosts hosts))

unfoldable pub resolves : List Host → String → Bool
unfolding resolve_node_host
resolves hosts name = elim (resolve_node_host hosts name) [ ok r ↦ true | err e ↦ false ]

-- The plan's sealed nodes, as `str(node)` gives them.
unfoldable pub preflight_live_plan_nodes : List Host → List String → Result PlanError (Unit {0})
unfolding resolves all
preflight_live_plan_nodes hosts [] = err no_nodes
preflight_live_plan_nodes hosts (n ∷ ns) =
    if all (resolves hosts) (n ∷ ns) then ok tt else err preflight_failed

-- What a plan and a task say of nodes; "" where they do not.
pub record Target : Type 0 where
  pub coordinator_node : String
  pub nodes : List String

-- `_short_host(node) not in {"", "local", "cluster"}`, for a node that is given
unfoldable pub is_named : String → Bool
unfolding short_host codes codes_eq
is_named node =
    (if node == "" then false else true)
    && not (
        codes_eq (short_host node) []
        || codes_eq (short_host node) (codes "local")
        || codes_eq (short_host node) (codes "cluster"))

unfoldable pub first_of : List String → Result PlanError String
first_of [] = err no_execution_node
first_of (n ∷ ns) = ok n

unfoldable pub task_execution_node : Target → String → Result PlanError String
unfolding is_named first_of
task_execution_node t node =
    if is_named node
    then ok node
    else if t.coordinator_node == ""
    then first_of t.nodes
    else ok t.coordinator_node

unfoldable pub resolve_live_host_for_task : List Host → Target → String → Result PlanError Resolved
unfolding preflight_live_plan_nodes task_execution_node resolve_node_host
resolve_live_host_for_task hosts t node =
    and_then (preflight_live_plan_nodes hosts t.nodes)
      λ _. and_then (task_execution_node t node) (resolve_node_host hosts)
