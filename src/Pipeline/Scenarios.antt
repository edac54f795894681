-- ===== src/Pipeline/Scenarios.antt =====
-- A host on which every tool is content, and the theorems of the pipeline there.
use oracle_patching.Prelude.{
  String, ◌≡◌, refl, Bool, true, false, not, none, some, List, map, last, ◌==◌, string_eq, [], ◌∷◌,
  if◌then◌else◌, any, all, select, is_nil, take, take_last,
}
use oracle_patching.Prelude.Text.{
  codes, codes_eq, after_prefix, starts_with, strip_slashes, digits, trim_start, trim, is_blank,
  pieces, is_digit, chomp, is_alnum, lower,
}
use oracle_patching.Exec.{Result, ok, err, ◌>>=◌, pure, raise, lift, gets, modify, ensure}
use oracle_patching.Json.{Json, object, find, get, get_or, is_dict, truthy, is_str, is_int, text_or}
use oracle_patching.Remote.Quote.{Text, is_bare, escape}
use oracle_patching.World.{absent, doc, World, Error, is_file, is_symlink, over_ssh_as}
use oracle_patching.Pipeline.Targets.{
  Env, has_key, target_of, targets_of, single_target, not_a_list, listed_targets, configured_nodes,
  require, require_all, snapshot_args, snapshot_cli_args, remote_root, sync_tools,
}
use oracle_patching.Pipeline.Chain.{
  step_order, discovery, ChainResult, Inputs, step_of, step_readiness_chain, known_document,
}
use oracle_patching.Pipeline.Layers.{Layered, no_truth}
use oracle_patching.Pipeline.Built.{step_of-Layered}
use oracle_patching.Pipeline.Refresh.{
  document, with_digest, refresh_ref, refresh_refs, refresh_procedure_input,
}
use oracle_patching.Pipeline.Compat.{
  merge_result, collect_all, asserted, step_compatibility_collect, step_compatibility_reconcile,
  readiness_args, step_readiness_evaluate,
}
use oracle_patching.Pipeline.Collect.{
  readable, next_primary, discover_all, some_payload, step_discovery, step_reconcile, absolute_dir,
  loads, step_artifact_inspect, step_procedure_validate,
}
use oracle_patching.Tools.Sync.{
  bad_root, is_current, push_tree, compare_stamp, lift_remote, ensure_tools,
}
use oracle_patching.Tools.Local.{run_tool}
use oracle_patching.Tools.Fingerprint.{
  is_tool, dir_files, module_files, snapshot_files, is_executable, hashed, local_fingerprint,
}
use oracle_patching.Evidence.Snapshots.{indexed, index_nodes, or_legacy, list_snapshot_paths}
use oracle_patching.Evidence.Store.{
  validate_host_id, evidence_dir, validate_evidence_name, write_evidence, has_evidence,
  read_evidence, clear_evidence, short_name,
}
use oracle_patching.Remote.Run.{
  ssh_argv, run_ssh, with_sudo, refuse_if, run_remote_raw, run_remote, run_remote_shell,
  run_remote_checked, run_remote_json, before_slash, remote_dir, push_script, push_file, reader,
  too_large, bad_limit, pull_file,
}
use oracle_patching.Phases.Values.{dict_or_empty, list_or_empty, stripped, dict_or_fault, says}
use oracle_patching.Prelude.Dict.{get as dict_get, put}
use oracle_patching.Pipeline.Approved.{Approved, step_readiness_chain-Approved}
use oracle_patching.Pipeline.StageNodes
use oracle_patching.Pipeline.Owner.{is_owner}
use oracle_patching.Pipeline.Stage.{Staging, step_stage_artifact}
use oracle_patching.Pipeline.Staged.{Outcome, step_stage_artifact-Outcome}
use oracle_patching.Pipeline.Overview.{StepEntry, pipeline_state}
use oracle_patching.Pipeline.Shown.{ShowsAll, pipeline_state-ShowsAll}
use oracle_patching.Remote.Transfer.{made}
use oracle_patching.Phases.Derive.{derive_discovery_phases}
use oracle_patching.Pipeline.Media.{is_complete_media, probe_artifact_media}
use oracle_patching.Exec.Triple.{Meets}

abbrev status : String → Json
status s = object (("status", Json.str s) ∷ [])

-- What each tool of the control plane prints is its name.
abbrev tool_result : Text → Json
tool_result out =
    if codes_eq out (codes "opu-snapshot-reconcile")
    then status "consistent"
    else if codes_eq out (codes "opu-procedure-validate")
    then status "ready_for_planning"
    else if codes_eq out (codes "opu-compatibility-reconcile")
    then status "passed"
    else status "ready_for_approval"

-- What each tool of the host prints.
abbrev host_result : Json
host_result = object (
    ("status", Json.str "passed")
    ∷ (
      "artifact",
      object (("status", Json.str "ready_for_catalog") ∷ ("path", Json.str "/stage") ∷ []),
    )
    ∷ [])

abbrev ssh : oracle_patching.Remote.Run.Env
ssh = record {
  ssh = λ calls c. some (record { returncode = 0; stdout = codes "abc"; stderr = [] });
  loads = λ text. ok host_result;
  other_digit = λ c. false;
}

abbrev show : Json → String
show v = "?"

abbrev env : Env
env = record {
  evidence = record { escapes = λ h. false; writable = λ w h n. true; repr = codes };
  ssh = ssh;
  local = record {
    installed = λ n. true;
    bin = codes;
    process = λ files n args. some (record { returncode = 0; stdout = codes n; stderr = [] });
    loads = λ out. ok (tool_result out);
  };
  sync = record {
    ssh = ssh;
    checkout = record {
      tree = λ d. [];
      entry = λ m. record {
        rel = m;
        is_file = true;
        is_symlink = false;
        in_pycache = false;
        mode = 420;
        content = [];
      };
      encode = codes;
      sha256 = λ t. codes "abc";
    };
    tarball = λ es. [];
    now = λ w. 0;
    fresh = λ w. [];
    text_of = λ t. t;
    repr = λ v. [];
    show = show;
  };
  show = show;
  repr = λ v. [];
  path_of = λ h n. codes n;
  bytes = λ f. [];
}

abbrev empty : World
empty = record { files = λ h n. absent; calls = []; verified = [] }

abbrev host : Json
host = object (
    ("id", Json.str "db1")
    ∷ ("ssh_alias", Json.str "db1")
    ∷ ("remote_root", Json.str "/opt/opu")
    ∷ [])

abbrev request : Json
request = object (
    ("artifact_dir", Json.str "/stage")
    ∷ ("procedure", object (("id", Json.str "p1") ∷ []))
    ∷ ("policy", object (("id", Json.str "r1") ∷ []))
    ∷ [])

empty-Layered : Layered (empty.files "db1")
unfolding is_file is_symlink
empty-Layered = record {
  evaluated = λ h. absurd (no_truth h);
  agreed = λ h. absurd (no_truth h);
  collected = λ h. absurd (no_truth h);
  validated = λ h. absurd (no_truth h);
  unlinked = λ n. refl;
}

step_of-Layered_example : Layered ((step_of env "db1" host discovery request empty).1.files "db1")
step_of-Layered_example = step_of-Layered env "db1" host discovery request empty empty-Layered

or_blocked : Result Error ChainResult → ChainResult
or_blocked (ok r) = r
or_blocked (err e) = record {
  status = "raised";
  stopped_at = none;
  steps = [];
  findings = Json.null;
  readiness = Json.null;
}

ran : ChainResult
ran = or_blocked (step_readiness_chain env "db1" host request empty).0

left : World
left = (step_readiness_chain env "db1" host request empty).1

ran_lem :
    (step_readiness_chain env "db1" host request empty ≡ (ok ran, left))
    × (ran.status ≡ "ready_for_approval")
unfolding ran left or_blocked known_document step_readiness_chain step_of document with_digest
    refresh_ref refresh_refs refresh_procedure_input merge_result collect_all asserted
    step_compatibility_collect step_compatibility_reconcile readiness_args step_readiness_evaluate
    readable next_primary discover_all some_payload step_discovery step_reconcile absolute_dir loads
    step_artifact_inspect step_procedure_validate has_key target_of targets_of single_target
    not_a_list listed_targets configured_nodes require require_all snapshot_args snapshot_cli_args
    remote_root sync_tools bad_root is_current push_tree compare_stamp lift_remote ensure_tools
    run_tool is_tool dir_files module_files snapshot_files is_executable hashed local_fingerprint
    indexed index_nodes or_legacy list_snapshot_paths validate_host_id evidence_dir
    validate_evidence_name write_evidence has_evidence read_evidence clear_evidence short_name
    over_ssh_as ssh_argv run_ssh with_sudo run_remote_checked run_remote_json before_slash
    remote_dir push_script push_file reader too_large bad_limit pull_file is_bare escape
    list_or_empty stripped dict_or_fault says after_prefix starts_with strip_slashes digits
    trim_start trim is_blank pieces is_digit find get get_or is_dict truthy is_str is_int text_or
    ◌>>=◌ pure raise lift gets modify ensure any all select is_nil take take_last put dict_get
ran_lem = (refl, refl)

step_readiness_chain-Approved_example :
    (inputs : Inputs) × (start : World) × (start.files ≡ empty.files)
    × Approved env "db1" host inputs start left ran
step_readiness_chain-Approved_example =
    step_readiness_chain-Approved env "db1" host request empty left ran ran_lem.0 ran_lem.1

abbrev stage_env : oracle_patching.Pipeline.StageNodes.Env
stage_env = record {
  base = env;
  int_of = λ text. none;
  repr_text = λ text. text;
  keygen = λ calls. made (codes "key") (codes "secret");
  marker_hex = λ calls. codes "0f";
  pipes = λ calls src dst. none;
}

-- The media are unzipped on a host that has an old inspection of them.
abbrev stage_body : Json
stage_body = object (
    ("artifact_dir", Json.str "/stage/")
    ∷ ("owner", Json.str "oracle:oinstall")
    ∷ ("source", object (("zip_path", Json.str "/zips/p.zip") ∷ []))
    ∷ [])

abbrev inspected : World
inspected = record empty { files = λ h n. if n == "artifact" then doc host_result else absent }

abbrev step_artifact_gone : Result Error Staging × World → Bool
step_artifact_gone (ok s, w) = not (is_file (w.files "db1" "artifact"))
step_artifact_gone (err e, w) = false

staged_lem :
    step_artifact_gone (step_stage_artifact stage_env "db1" host stage_body inspected) ≡ true
unfolding readable has_key target_of targets_of single_target not_a_list listed_targets
    configured_nodes remote_root sync_tools bad_root is_current push_tree compare_stamp lift_remote
    ensure_tools is_tool dir_files module_files snapshot_files is_executable hashed
    local_fingerprint validate_host_id evidence_dir validate_evidence_name read_evidence
    clear_evidence short_name over_ssh_as ssh_argv run_ssh with_sudo run_remote_checked
    run_remote_json before_slash remote_dir push_script push_file reader too_large bad_limit
    pull_file is_bare escape stripped dict_or_fault after_prefix starts_with strip_slashes digits
    trim_start trim is_blank pieces is_digit find get get_or is_dict truthy is_str is_int text_or
    ◌>>=◌ pure raise lift gets modify ensure any all select is_nil take take_last put dict_get
    step_stage_artifact is_owner chomp is_alnum dict_or_empty codes_eq lower last
    probe_artifact_media run_remote_shell is_complete_media
staged_lem = refl

step_stage_artifact-Outcome_example :
    Outcome stage_env "db1" host stage_body
      (inspected.files "db1")
      (step_stage_artifact stage_env "db1" host stage_body inspected)
step_stage_artifact-Outcome_example =
    step_stage_artifact-Outcome stage_env "db1" host stage_body inspected

pipeline_state-ShowsAll_example :
    Meets
      (λ es w.
        ShowsAll env "db1" (inspected.files "db1") step_order es
        × (w.files "db1" ≡ inspected.files "db1"))
      (λ w. w.files "db1" ≡ inspected.files "db1")
      (pipeline_state env "db1" inspected)
pipeline_state-ShowsAll_example = pipeline_state-ShowsAll env "db1" inspected

abbrev shown_statuses : Result Error (List StepEntry) × World → List Json
shown_statuses (ok es, w) = map (λ (e : StepEntry). e.status) es
shown_statuses (err e, w) = []

-- The status of the artifact is read from inside its document.
shown_lem :
    shown_statuses (pipeline_state env "db1" inspected)
    ≡ Json.null ∷ Json.null ∷ Json.str "passed" ∷ Json.null ∷ Json.null ∷ Json.null ∷ Json.null ∷ []
unfolding pipeline_state ◌>>=◌ read_evidence readable derive_discovery_phases get
shown_lem = refl
