-- ===== src/Pipeline/Reads.antt =====
-- What the steps do without touching the evidence files.
use Prim.Native.String.{String}
use oracle_patching.Prelude.{arith, ℕ, Bool, false, Option, none, some, List, [], ◌∷◌, refl}
use oracle_patching.Exec.{Result, ok, err, pure, raise, modify}
use oracle_patching.Json.{Json}
use oracle_patching.Remote.Quote.{Text}
use oracle_patching.Remote.Run.{RemoteError}
use oracle_patching.World.{decode}
use oracle_patching.Tools.Fingerprint.{ToolFile}
use oracle_patching.World.Quiet.{
  Quiet, quiet_rules, Quiet-pure, Quiet-raise, Quiet-lift, Quiet-gets, Quiet-if, Quiet-over_ssh,
  Quiet-over_ssh_as, Quiet-ensure, Quiet-bind,
}
use oracle_patching.Evidence.Store.{
  evidence_dir, validate_host_id, validate_evidence_name, has_evidence, read_evidence,
}
use oracle_patching.Evidence.Snapshots.{
  node_snapshot_evidence_name, kept_path, entry_name, kept_entry, indexed, or_legacy,
  list_snapshot_paths,
}
use oracle_patching.Tools.Local.{run_tool}
use oracle_patching.Tools.Sync.{
  read_stamp, remember, install, push_tree, compare_stamp, lift_remote, ensure_tools, ensure_each,
  ensure_host_tools,
}
use oracle_patching.Pipeline.Targets.{
  Env, SshNode, require, require_all, snapshot_cli_args, sync_tools,
}
use oracle_patching.Pipeline.Collect.{readable, absolute_dir, loads, some_payload}
use oracle_patching.Pipeline.Compat.{
  first_result, add_result, node_snapshot, push_evidence, collect_on, merge_result, collect_all,
  asserted,
}

module _ (env : oracle_patching.Evidence.Store.Env) where
  pub evidence_dir-Quiet : (h : String) → Quiet (evidence_dir env h)
  unfolding evidence_dir validate_host_id
  evidence_dir-Quiet h = search quiet_rules

  pub has_evidence-Quiet : (h n : String) → Quiet (has_evidence env h n)
  unfolding has_evidence
  has_evidence-Quiet h n = search (quiet_rules, evidence_dir-Quiet)

  pub read_evidence-Quiet : (h n : String) → Quiet (read_evidence env h n)
  unfolding read_evidence
  read_evidence-Quiet h n = search (quiet_rules, evidence_dir-Quiet)

  pub node_snapshot_evidence_name-Quiet : (n : String) → Quiet (node_snapshot_evidence_name env n)
  unfolding node_snapshot_evidence_name validate_evidence_name
  node_snapshot_evidence_name-Quiet n = search quiet_rules

  entry_name-Quiet : (show : Json → String) (e : Json) → Quiet (entry_name env show e)
  unfolding entry_name
  entry_name-Quiet show e = search (quiet_rules, node_snapshot_evidence_name-Quiet)

  kept_entry-Quiet : (h : String) (n : Option String) → Quiet (kept_entry env h n)
  unfolding kept_entry kept_path
  kept_entry-Quiet h none = search quiet_rules
  kept_entry-Quiet h (some n) = search (quiet_rules, has_evidence-Quiet)

  indexed-Quiet :
      (show : Json → String) (h : String) (es : List Json) → Quiet (indexed env show h es)
  unfolding indexed
  indexed-Quiet show h [] = search quiet_rules
  indexed-Quiet show h (e ∷ es) = Quiet-bind _ _ (entry_name-Quiet show e) λ n.
      Quiet-bind _ _ (kept_entry-Quiet h n)
        λ found. Quiet-bind _ _ (indexed-Quiet show h es) λ rest. Quiet-pure _

  or_legacy-Quiet : (h : String) (ps : List String) → Quiet (or_legacy env h ps)
  unfolding or_legacy
  or_legacy-Quiet h [] = search (quiet_rules, has_evidence-Quiet)
  or_legacy-Quiet h (p ∷ ps) = search quiet_rules

  pub list_snapshot_paths-Quiet :
      (show : Json → String) (h : String) → Quiet (list_snapshot_paths env show h)
  unfolding list_snapshot_paths
  list_snapshot_paths-Quiet show h =
      search (quiet_rules, read_evidence-Quiet, indexed-Quiet, or_legacy-Quiet)

pub run_tool-Quiet :
    (env : oracle_patching.Tools.Local.Env) (n : String) (args : List Text)
    → Quiet (run_tool env n args)
unfolding run_tool
run_tool-Quiet env n args = record { same = λ w. ground arith }

pub readable-Quiet :
    {A : Type 0} (r : Result oracle_patching.Phases.Values.Fault A) → Quiet (readable r)
unfolding readable
readable-Quiet (ok a) = search quiet_rules
readable-Quiet (err e) = search quiet_rules

module _ (env : oracle_patching.Tools.Sync.Env) where
  read_stamp-Quiet :
      (a : String) (root : Text) (sudo force : Bool) → Quiet (read_stamp env a root sudo force)
  unfolding read_stamp
  read_stamp-Quiet a root sudo force = record { same = λ w. ground arith }

  remember-Quiet : (k : String) (now : ℕ) (want : Text) → Quiet (remember env k now want)
  unfolding remember modify
  remember-Quiet k now want = record { same = λ w. refl }

  install-Quiet :
      (a : String) (root : Text) (sudo : Bool) (es : List ToolFile) (want helper : Text)
      → Quiet (install env a root sudo es want helper)
  unfolding install
  install-Quiet a root sudo es want helper = search quiet_rules

  push_tree-Quiet :
      (k a : String) (root : Text) (sudo : Bool) (es : List ToolFile) (want : Text)
      → Quiet (push_tree env k a root sudo es want)
  unfolding push_tree
  push_tree-Quiet k a root sudo es want = Quiet-bind _ _ (Quiet-lift _) λ helper.
      Quiet-bind _ _ (install-Quiet a root sudo es want helper) λ _.
        Quiet-bind _ _ (Quiet-gets _)
          λ now. Quiet-bind _ _ (remember-Quiet k now want) λ _. Quiet-pure _

  compare_stamp-Quiet :
      (k a : String) (root : Text) (sudo force : Bool) (es : List ToolFile) (want : Text) (now : ℕ)
      → Quiet (compare_stamp env k a root sudo force es want now)
  unfolding compare_stamp
  compare_stamp-Quiet k a root sudo force es want now =
      Quiet-bind _ _ (read_stamp-Quiet a root sudo force) λ have.
        Quiet-if _ _ _ (Quiet-bind _ _ (remember-Quiet k now want) λ _. Quiet-pure _)
          (push_tree-Quiet k a root sudo es want)

  lift_remote-Quiet : {A : Type 0} (r : Result RemoteError A) → Quiet (lift_remote env r)
  unfolding lift_remote
  lift_remote-Quiet (ok a) = search quiet_rules
  lift_remote-Quiet (err e) = search quiet_rules

  pub ensure_tools-Quiet :
      (a root : String) (sudo force : Bool) → Quiet (ensure_tools env a root sudo force)
  unfolding ensure_tools
  ensure_tools-Quiet a root sudo force = Quiet-bind _ _ (Quiet-ensure _ _) λ _.
      Quiet-bind _ _ (lift_remote-Quiet _) λ snapshot. Quiet-bind _ _ (Quiet-gets _) λ now.
        Quiet-bind _ _ (Quiet-gets _) λ last.
          Quiet-if _ _ _ (Quiet-pure _) (compare_stamp-Quiet _ a _ sudo force snapshot _ now)

  ensure_each-Quiet :
      (aliases : List String) (root : String) (sudo force : Bool)
      → Quiet (ensure_each env aliases root sudo force)
  unfolding ensure_each
  ensure_each-Quiet [] root sudo force = Quiet-pure _
  ensure_each-Quiet (a ∷ aliases) root sudo force =
      Quiet-bind _ _ (ensure_tools-Quiet a root sudo force)
        λ s. Quiet-bind _ _ (ensure_each-Quiet aliases root sudo force) λ ss. Quiet-pure _

  ensure_host_tools-Quiet : (host : Json) (force : Bool) → Quiet (ensure_host_tools env host force)
  unfolding ensure_host_tools
  ensure_host_tools-Quiet host force =
      Quiet-bind _ _ (Quiet-lift _)
        λ nodes. Quiet-bind _ _ (Quiet-ensure _ _) λ _. ensure_each-Quiet _ _ _ force

module _ (env : Env) where
  pub sync_tools-Quiet : (host : Json) → Quiet (sync_tools env host)
  unfolding sync_tools
  sync_tools-Quiet host =
      Quiet-bind _ _ (ensure_host_tools-Quiet env.sync host false) λ _. Quiet-pure _

  pub require-Quiet : (h n tool label : String) → Quiet (require env h n tool label)
  unfolding require
  require-Quiet h n tool label = search (quiet_rules, has_evidence-Quiet)

  require_all-Quiet : (h tool : String) (ps : List String) → Quiet (require_all env h tool ps)
  unfolding require_all
  require_all-Quiet h tool [] = Quiet-pure _
  require_all-Quiet h tool (p ∷ ps) =
      Quiet-bind _ _ (require-Quiet h p tool "discovery") λ _. require_all-Quiet h tool ps

  pub snapshot_cli_args-Quiet : (h tool : String) → Quiet (snapshot_cli_args env h tool)
  unfolding snapshot_cli_args
  snapshot_cli_args-Quiet h tool =
      Quiet-bind _ _ (list_snapshot_paths-Quiet env.evidence env.show h) λ paths.
        Quiet-bind _ _ (Quiet-ensure _ _)
          λ _. Quiet-bind _ _ (require_all-Quiet h tool paths) λ _. Quiet-pure _

  pub absolute_dir-Quiet : (body : Json) (m : String) → Quiet (absolute_dir env body m)
  unfolding absolute_dir
  absolute_dir-Quiet body m =
      Quiet-bind _ _ (readable-Quiet _) λ dir. Quiet-bind _ _ (Quiet-ensure _ _) λ _. Quiet-pure _

  pub loads-Quiet : (out : Text) → Quiet (loads env out)
  unfolding loads
  loads-Quiet out = go (env.ssh.loads out)
    where
      go : (r : Result Text Json) → Quiet (elim r [ ok j ↦ pure j | err e ↦ raise decode ])
      go (ok j) = Quiet-pure j
      go (err e) = Quiet-raise decode

  node_snapshot-Quiet : (h : String) (node : SshNode) → Quiet (node_snapshot env h node)
  unfolding node_snapshot
  node_snapshot-Quiet h node =
      search (quiet_rules, node_snapshot_evidence_name-Quiet, has_evidence-Quiet)

  collect_on-Quiet :
      (h : String) (host : Json) (root : Text) (dir : String) (node : SshNode)
      → Quiet (collect_on env h host root dir node)
  unfolding collect_on push_evidence
  collect_on-Quiet h host root dir node = Quiet-bind _ _ (node_snapshot-Quiet h node) λ snapshot.
      Quiet-bind _ _ (Quiet-gets _) λ artifact. Quiet-bind _ _ (Quiet-gets _) λ procedure.
        Quiet-bind _ _ (Quiet-over_ssh _) λ _. Quiet-bind _ _ (Quiet-over_ssh _) λ _.
          Quiet-bind _ _ (Quiet-over_ssh _) λ _. Quiet-bind _ _ (Quiet-over_ssh_as _ _) loads-Quiet

  merge_result-Quiet :
      (many : Bool) (node : SshNode) (r : Json) (m : Option Json)
      → Quiet (merge_result env many node r m)
  unfolding merge_result first_result add_result
  merge_result-Quiet many node r none =
      Quiet-if many _ _
        (Quiet-bind _ _ (readable-Quiet _)
          λ d. Quiet-bind _ _ (readable-Quiet _) λ found. Quiet-pure _)
        (Quiet-pure r)
  merge_result-Quiet many node r (some m) = Quiet-bind _ _ (readable-Quiet _) λ d.
      Quiet-bind _ _ (readable-Quiet _) λ old_checks. Quiet-bind _ _ (readable-Quiet _) λ r'.
        Quiet-bind _ _ (readable-Quiet _) λ checks.
          Quiet-bind _ _ (readable-Quiet _)
            λ old_findings. Quiet-bind _ _ (readable-Quiet _) λ found. Quiet-pure _

  pub collect_all-Quiet :
      (h : String) (host : Json) (root : Text) (dir : String) (many : Bool) (nodes : List SshNode)
      (m : Option Json)
      → Quiet (collect_all env h host root dir many nodes m)
  unfolding collect_all
  collect_all-Quiet h host root dir many [] m = Quiet-pure _
  collect_all-Quiet h host root dir many (node ∷ nodes) m =
      Quiet-bind _ _ (collect_on-Quiet h host root dir node) λ r.
        Quiet-bind _ _ (merge_result-Quiet many node r m)
          λ m'. collect_all-Quiet h host root dir many nodes (some m')

  pub asserted-Quiet : (m : Option Json) → Quiet (asserted env m)
  unfolding asserted
  asserted-Quiet none = Quiet-raise _
  asserted-Quiet (some Json.null) = Quiet-raise _
  asserted-Quiet (some (Json.bool b)) = Quiet-pure _
  asserted-Quiet (some (Json.int n)) = Quiet-pure _
  asserted-Quiet (some (Json.neg n)) = Quiet-pure _
  asserted-Quiet (some (Json.real s w f)) = Quiet-pure _
  asserted-Quiet (some (Json.str s)) = Quiet-pure _
  asserted-Quiet (some (Json.arr xs)) = Quiet-pure _
  asserted-Quiet (some (Json.obj fs)) = Quiet-pure _

  pub some_payload-Quiet : (m : Option Json) → Quiet (some_payload env m)
  unfolding some_payload
  some_payload-Quiet none = Quiet-raise _
  some_payload-Quiet (some j) = Quiet-pure _
