-- ===== src/Pipeline/Collect.antt =====
-- The steps that collect and reconcile the topology, inspect the artifact and validate the procedure.
use Prim.Native.String.{String}
use oracle_patching.Prelude.{
  Option, none, some, List, [], ◌∷◌, ◌++◌, ◌==◌, string_eq, if◌then◌else◌,
}
use oracle_patching.Prelude.Text.{codes, starts_with}
use oracle_patching.Exec.{Result, ok, err, pure, raise, lift, ensure, ◌>>=◌, ◌>>◌}
use oracle_patching.Json.{Json, get, truthy, is_dict, object, array}
use oracle_patching.Phases.Values.{text, text_else, dict_or_fault, dict_or_empty, stripped}
use oracle_patching.Remote.Quote.{Text}
use oracle_patching.Remote.Run.{RemoteError, remote_error, run_remote, run_remote_json}
use oracle_patching.World.{remote, decode, fault, Action, over_ssh, over_ssh_as}
use oracle_patching.Evidence.Store.{write_evidence, clear_evidence}
use oracle_patching.Evidence.Snapshots.{node_snapshot_evidence_name}
use oracle_patching.Tools.Local.{run_tool}
use oracle_patching.Pipeline.Targets.{
  Env, SshNode, invalid_input, has_key, tool_error, configured_nodes, require, snapshot_cli_args,
  remote_root, sync_tools,
}

-- A read of a value that Python may refuse.
unfoldable pub readable : {A : Type 0} → Result oracle_patching.Phases.Values.Fault A → Action A
readable (ok a) = pure a
readable (err e) = raise fault

-- `RemoteError` of a node, with the message of the one it stands for.
unfoldable pub failed_on_node : String → SshNode → RemoteError → RemoteError
failed_on_node what node exc =
    remote_error exc.error
      (codes what
        ++ codes node.name
        ++ codes " (ssh_alias="
        ++ codes node.ssh_alias
        ++ codes "): "
        ++ exc.message)
      exc.stderr

-- What a new topology makes stale.
abbrev pub topology_bound : List String
topology_bound =
    "reconciliation" ∷ "compatibility" ∷ "compatibility_reconciliation" ∷ "readiness" ∷ []

-- What a new procedure makes stale.
abbrev pub procedure_bound : List String
procedure_bound = "procedure" ∷ "compatibility" ∷ "compatibility_reconciliation" ∷ "readiness" ∷ []

module _ (env : Env) where
  unfoldable pub clear_all : String → List String → Action (Unit {0})
  clear_all host_id [] = pure tt
  clear_all host_id (n ∷ ns) = clear_evidence env.evidence host_id n >> clear_all host_id ns

  -- An entry of the index of snapshots.
  unfoldable pub index_entry : SshNode → String → Json → Json → Json
  index_entry node evidence_name host payload = object (
      ("name", Json.str node.name)
      ∷ ("ssh_alias", Json.str node.ssh_alias)
      ∷ ("evidence", Json.str evidence_name)
      ∷ ("host_name", get "name" host)
      ∷ ("collected_at", get "collected_at" payload)
      ∷ [])

  -- The round of the loop for one node: its snapshot is written, and the index entry comes back.
  unfoldable pub discover_node : String → Json → Text → SshNode → Action (Json × Json)
  unfolding failed_on_node readable index_entry
  discover_node host_id host root node = do
    payload ← over_ssh_as (failed_on_node "Discovery failed on node " node) (
        run_remote_json env.ssh (codes node.ssh_alias)
          ((root ++ codes "/bin/opu-topology-discover") ∷ codes "--pretty" ∷ []) 180
          (truthy (get "sudo" host)))
    evidence_name ← node_snapshot_evidence_name env.evidence node.name
    _ ← write_evidence env.evidence host_id evidence_name payload
    found ← readable (dict_or_fault payload)
    named ← readable (dict_or_empty (get "host" found))
    pure (payload, index_entry node evidence_name named payload)

  unfoldable pub next_primary : String → SshNode → Json → Option Json → Option Json
  next_primary primary_alias node payload none = some payload
  next_primary primary_alias node payload (some old) =
      if node.ssh_alias == primary_alias then some payload else some old

  unfoldable pub discover_all :
      String
      → Json
      → Text
      → List SshNode
      → String
      → Option Json
      → List Json
      → Action (Option Json × List Json)
  unfolding discover_node next_primary
  discover_all host_id host root [] primary_alias primary index = pure (primary, index)
  discover_all host_id host root (node ∷ nodes) primary_alias primary index =
      discover_node host_id host root node >>= λ found.
      discover_all host_id host root nodes primary_alias
        (next_primary primary_alias node found.0 primary) (index ++ (found.1 ∷ []))

  unfoldable pub some_payload : Option Json → Action Json
  some_payload (some payload) = pure payload
  some_payload none = raise (
      remote
        (remote_error (codes "discovery_failed") (codes "No topology snapshots were collected") []))

  unfoldable pub step_discovery : String → Json → Action Json
  unfolding discover_all some_payload clear_all text_else
  step_discovery host_id host = do
    nodes ← lift (configured_nodes env host)
    _ ← sync_tools env host
    root ← lift (remote_root env host)
    found ←
        discover_all host_id host root nodes (text_else env.show "" (get "ssh_alias" host)) none []
    payload ← some_payload found.0
    _ ← write_evidence env.evidence host_id "snapshot" payload
    _ ←
        write_evidence env.evidence host_id "snapshot_nodes"
          (object (("schema_version", Json.str "1.0") ∷ ("nodes", array found.1) ∷ []))
    _ ← clear_all host_id topology_bound
    pure payload

  unfoldable pub step_reconcile : String → Action Json
  unfolding clear_all
  step_reconcile host_id = do
    args ← snapshot_cli_args env host_id "opu-snapshot-reconcile"
    result ← run_tool env.local "opu-snapshot-reconcile" args
    _ ← write_evidence env.evidence host_id "reconciliation" result
    _ ← clear_all host_id ("compatibility_reconciliation" ∷ "readiness" ∷ [])
    pure result

  -- `(body.get("artifact_dir") or "").strip()`, which must start with "/".
  unfoldable pub absolute_dir : Json → String → Action String
  unfolding readable
  absolute_dir body message = do
    dir ← readable (stripped (get "artifact_dir" body))
    _ ← ensure (starts_with (codes "/") (codes dir)) (invalid_input message)
    pure dir

  -- `json.loads` of what a host printed.
  unfoldable pub loads : Text → Action Json
  loads stdout = elim (env.ssh.loads stdout) [ ok j ↦ pure j | err e ↦ raise decode ]

  unfoldable pub step_artifact_inspect : String → Json → Json → Action Json
  unfolding absolute_dir loads
  step_artifact_inspect host_id host body = do
    dir ← absolute_dir body "artifact_dir must be an absolute path on the target host"
    _ ← sync_tools env host
    root ← lift (remote_root env host)
    _ ← ensure (has_key "ssh_alias" host) fault
    stdout ← over_ssh (
        run_remote env.ssh (codes (text env.show (get "ssh_alias" host)))
          ((root ++ codes "/bin/opu-artifact-inspect") ∷ codes "--artifact" ∷ codes dir ∷ []) 300
          (truthy (get "sudo" host)))
    result ← loads stdout
    _ ← write_evidence env.evidence host_id "artifact" result
    pure result

  unfoldable pub step_procedure_validate : String → Json → Action Json
  unfolding clear_all
  step_procedure_validate host_id body = do
    let procedure_input = get "procedure" body
    _ ←
        ensure (is_dict procedure_input)
          (tool_error "opu-procedure-validate" "Missing 'procedure' document in request body.")
    _ ← require env host_id "artifact" "opu-procedure-validate" "artifact-inspect"
    _ ← write_evidence env.evidence host_id "procedure_input" procedure_input
    _ ← clear_all host_id procedure_bound
    result ← run_tool env.local "opu-procedure-validate" (
        codes "--procedure"
        ∷ env.path_of host_id "procedure_input"
        ∷ codes "--artifact"
        ∷ env.path_of host_id "artifact"
        ∷ [])
    _ ← write_evidence env.evidence host_id "procedure" result
    pure result
