-- ===== src/Pipeline/Compat.antt =====
-- The steps that collect and reconcile the compatibility of the patch, and evaluate readiness.
use Prim.Native.String.{String}
use oracle_patching.Prelude.{
  ◌<>◌, Bool, false, Option, none, some, List, [], ◌∷◌, ◌++◌, map, nat_eq, string_eq, if◌then◌else◌,
  length, ltb,
}
use oracle_patching.Prelude.Text.{codes}
use oracle_patching.Exec.{Result, ok, err, pure, raise, lift, gets, ensure, ◌>>=◌}
use oracle_patching.Json.{
  Json, Fields, get, truthy, is_dict, is_str, elements, fields, set_field, array,
}
use oracle_patching.Phases.Values.{text, dict_or_fault}
use oracle_patching.Remote.Quote.{Text}
use oracle_patching.Remote.Run.{run_remote, push_file}
use oracle_patching.World.{File, fault, Action, over_ssh, over_ssh_as}
use oracle_patching.Evidence.Store.{write_evidence, has_evidence}
use oracle_patching.Evidence.Snapshots.{node_snapshot_evidence_name}
use oracle_patching.Tools.Local.{run_tool}
use oracle_patching.Pipeline.Targets.{
  Env, SshNode, tool_error, configured_nodes, require, snapshot_cli_args, remote_root, sync_tools,
}
use oracle_patching.Pipeline.Collect.{readable, failed_on_node, absolute_dir, loads}

-- The characters of a text, as texts.
unfoldable pub characters : String → List Json
characters String.[] = []
characters (String.◌∷◌ c s) = Json.str (String.◌∷◌ c String.[]) ∷ characters s

unfoldable pub field_names : Fields → List Json
field_names Fields.end = []
field_names (Fields.field k v fs) = Json.str k ∷ field_names fs

-- `[*(value or [])]`
unfoldable pub unpacked : Json → Result oracle_patching.Phases.Values.Fault (List Json)
unfolding characters field_names
unpacked (Json.arr xs) = ok (elements xs)
unpacked (Json.str s) = ok (characters s)
unpacked (Json.obj fs) = ok (field_names fs)
unpacked v = if truthy v then err oracle_patching.Phases.Values.fault else ok []

-- `value[k] = v`, on a `dict`.
unfoldable pub assign : String → Json → Json → Json
assign k v d = Json.obj (set_field k v (fields d))

module _ (show : Json → String) where
  -- `[f"{node['name']}: {f}" for f in findings]`
  unfoldable pub named_findings : SshNode → List Json → List Json
  unfolding text
  named_findings node = map (λ f. Json.str (node.name <> ": " <> text show f))

  unfoldable pub first_result : Bool → SshNode → Json → Action Json
  unfolding named_findings unpacked assign readable
  first_result many node result =
      let labelled = readable (dict_or_fault result) >>= λ d.
      readable (unpacked (get "findings" d)) >>= λ found.
      pure (assign "findings" (array (named_findings node found)) d) in
      if many then labelled else pure result

  -- The result of a later node is added to what is merged.
  unfoldable pub add_result : SshNode → Json → Json → Action Json
  unfolding named_findings unpacked assign readable
  add_result node result merged = do
    d ← readable (dict_or_fault merged)
    old_checks ← readable (unpacked (get "checks" d))
    r ← readable (dict_or_fault result)
    checks ← readable (unpacked (get "checks" r))
    old_findings ← readable (unpacked (get "findings" d))
    found ← readable (unpacked (get "findings" r))
    let both =
        assign "findings" (array (old_findings ++ named_findings node found))
          (assign "checks" (array (old_checks ++ checks)) d)
    pure (
        if is_str "passed" (get "status" r)
        then both
        else assign "status" (Json.str "blocked") both)

module _ (env : Env) where
  unfoldable pub scratch : String → Text
  scratch host_id = codes "/tmp/opu-webapp-evidence/" ++ codes host_id

  -- The snapshot that is sent to a node: its own, if there is one.
  unfoldable pub node_snapshot : String → SshNode → Action File
  node_snapshot host_id node = do
    name ← node_snapshot_evidence_name env.evidence node.name
    own ← has_evidence env.evidence host_id name
    gets (λ w. w.files host_id (if own then name else "snapshot"))

  unfoldable pub push_evidence : String → Text → String → File → Action (Unit {0})
  unfolding scratch
  push_evidence host_id ssh_alias name file = over_ssh (
      push_file env.ssh ssh_alias (scratch host_id ++ codes "/" ++ codes name) (env.bytes file) 45
        false)

  unfoldable pub collect_argv : String → Text → String → List Text
  unfolding scratch
  collect_argv host_id root dir =
      (root ++ codes "/bin/opu-opatch-compatibility-collect")
      ∷ codes "--snapshot"
      ∷ (scratch host_id ++ codes "/snapshot.json")
      ∷ codes "--artifact"
      ∷ codes dir
      ∷ codes "--artifact-manifest"
      ∷ (scratch host_id ++ codes "/artifact.json")
      ∷ codes "--procedure-validation"
      ∷ (scratch host_id ++ codes "/procedure.json")
      ∷ []

  unfoldable pub collect_on : String → Json → Text → String → SshNode → Action Json
  unfolding node_snapshot push_evidence collect_argv loads failed_on_node
  collect_on host_id host root dir node = do
    snapshot ← node_snapshot host_id node
    artifact ← gets (λ w. w.files host_id "artifact")
    procedure ← gets (λ w. w.files host_id "procedure")
    _ ← push_evidence host_id (codes node.ssh_alias) "snapshot.json" snapshot
    _ ← push_evidence host_id (codes node.ssh_alias) "artifact.json" artifact
    _ ← push_evidence host_id (codes node.ssh_alias) "procedure.json" procedure
    stdout ← over_ssh_as (failed_on_node "OPatch compatibility collection failed on node " node) (
        run_remote env.ssh (codes node.ssh_alias) (collect_argv host_id root dir) 360
          (truthy (get "sudo" host)))
    loads env stdout

  unfoldable pub merge_result : Bool → SshNode → Json → Option Json → Action Json
  unfolding first_result add_result
  merge_result many node result none = first_result env.show many node result
  merge_result many node result (some merged) = add_result env.show node result merged

  unfoldable pub collect_all :
      String → Json → Text → String → Bool → List SshNode → Option Json → Action (Option Json)
  unfolding collect_on merge_result
  collect_all host_id host root dir many [] merged = pure merged
  collect_all host_id host root dir many (node ∷ nodes) merged =
      collect_on host_id host root dir node >>= λ result.
      merge_result many node result merged >>= λ m.
      collect_all host_id host root dir many nodes (some m)

  -- `assert merged is not None`
  unfoldable pub asserted : Option Json → Action Json
  asserted none = raise fault
  asserted (some Json.null) = raise fault
  asserted (some j) = pure j

  abbrev collector : String
  collector = "opu-opatch-compatibility-collect"

  unfoldable pub step_compatibility_collect : String → Json → Json → Action Json
  unfolding absolute_dir collect_all asserted
  step_compatibility_collect host_id host body = do
    dir ← absolute_dir env body "artifact_dir must be an absolute path on the target host"
    _ ← require env host_id "snapshot" collector "discovery"
    _ ← require env host_id "artifact" collector "artifact-inspect"
    _ ← require env host_id "procedure" collector "procedure-validate"
    _ ← sync_tools env host
    nodes ← lift (configured_nodes env host)
    root ← lift (remote_root env host)
    merged ← collect_all host_id host root dir (ltb 1 (length nodes)) nodes none
    result ← asserted merged
    _ ← write_evidence env.evidence host_id "compatibility" result
    pure result

  unfoldable pub step_compatibility_reconcile : String → Action Json
  step_compatibility_reconcile host_id = do
    _ ← require env host_id "reconciliation" "opu-compatibility-reconcile" "reconcile"
    _ ← require env host_id "procedure" "opu-compatibility-reconcile" "procedure-validate"
    _ ← require env host_id "compatibility" "opu-compatibility-reconcile" "compatibility-collect"
    result ← run_tool env.local "opu-compatibility-reconcile" (
        codes "--reconciliation"
        ∷ env.path_of host_id "reconciliation"
        ∷ codes "--procedure-validation"
        ∷ env.path_of host_id "procedure"
        ∷ codes "--compatibility"
        ∷ env.path_of host_id "compatibility"
        ∷ [])
    _ ← write_evidence env.evidence host_id "compatibility_reconciliation" result
    pure result

  unfoldable pub readiness_args : String → List Text → List Text
  readiness_args host_id snapshots =
      codes "--reconciliation"
      ∷ env.path_of host_id "reconciliation"
      ∷ (snapshots
          ++ (codes "--artifact"
              ∷ env.path_of host_id "artifact"
              ∷ codes "--procedure-validation"
              ∷ env.path_of host_id "procedure"
              ∷ codes "--compatibility"
              ∷ env.path_of host_id "compatibility_reconciliation"
              ∷ codes "--policy"
              ∷ env.path_of host_id "policy"
              ∷ []))

  unfoldable pub step_readiness_evaluate : String → Json → Action Json
  unfolding readiness_args
  step_readiness_evaluate host_id body = do
    let policy = get "policy" body
    _ ←
        ensure (is_dict policy)
          (tool_error "opu-readiness-evaluate" "Missing 'policy' document in request body.")
    _ ← require env host_id "reconciliation" "opu-readiness-evaluate" "reconcile"
    _ ← require env host_id "artifact" "opu-readiness-evaluate" "artifact-inspect"
    _ ← require env host_id "procedure" "opu-readiness-evaluate" "procedure-validate"
    _ ←
        require env host_id "compatibility_reconciliation" "opu-readiness-evaluate"
          "compatibility-reconcile"
    _ ← write_evidence env.evidence host_id "policy" policy
    snapshots ← snapshot_cli_args env host_id "opu-readiness-evaluate"
    result ← run_tool env.local "opu-readiness-evaluate" (readiness_args host_id snapshots)
    _ ← write_evidence env.evidence host_id "readiness" result
    pure result
