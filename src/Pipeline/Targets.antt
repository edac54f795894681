-- ===== src/Pipeline/Targets.antt =====
-- What the steps have in common: the environment, `_require`, `_configured_nodes` and
-- `_snapshot_cli_args`.
use Prim.Native.String.{String}
use oracle_patching.Prelude.{
  ◌<>◌, Bool, true, false, not, ◌||◌, none, some, List, [], ◌∷◌, ◌++◌, ◌==◌, string_eq,
  if◌then◌else◌, is_nil,
}
use oracle_patching.Prelude.Text.{codes, id_match}
use oracle_patching.Exec.{Result, ok, err, and_then, pure, ensure, ◌>>=◌, ◌>>◌}
use oracle_patching.Json.{Json, get, truthy, is_dict, elements, text_or, find, fields}
use oracle_patching.Phases.Values.{text}
use oracle_patching.Remote.Quote.{Text}
use oracle_patching.Remote.Run.{RemoteError, remote_error}
use oracle_patching.World.{File, Error, remote, local_tool, fault, Action}
use oracle_patching.Evidence.Store.{short_name, has_evidence}
use oracle_patching.Evidence.Snapshots.{list_snapshot_paths}
use oracle_patching.Tools.Sync.{ensure_host_tools}

pub record Env : Type 0 where
  pub evidence : oracle_patching.Evidence.Store.Env
  pub ssh : oracle_patching.Remote.Run.Env
  pub local : oracle_patching.Tools.Local.Env
  pub sync : oracle_patching.Tools.Sync.Env
  pub show : Json → String
  pub repr : Json → Text
  -- `str(evidence_path(host_id, name))`
  pub path_of : String → String → Text
  -- the bytes of an evidence file
  pub bytes : File → Text

pub record SshNode : Type 0 where
  pub name : String
  pub ssh_alias : String

abbrev pub invalid_host : Text → Error
invalid_host message = remote (remote_error (codes "invalid_host_config") message [])

abbrev pub invalid_input : String → Error
invalid_input message = remote (remote_error (codes "invalid_input") (codes message) [])

abbrev pub tool_error : String → String → Error
tool_error tool message = local_tool tool (codes message) []

-- `"ssh_alias" in entry`
unfoldable pub has_key : String → Json → Bool
unfolding find fields
has_key k v = elim (find k (fields v)) [ none ↦ false | some w ↦ true ]

module _ (env : Env) where
  -- An entry of `host["nodes"]`.
  unfoldable pub target_of : Json → Json → Result Error SshNode
  unfolding short_name id_match codes has_key text text_or
  target_of host entry =
      let name = short_name (text_or env.show "" (get "name" entry)) in
      let found =
        if has_key "ssh_alias" entry then get "ssh_alias" entry else get "ssh_alias" host in
      if not (is_dict entry)
      then err (invalid_host (codes "hosts.json nodes entries must be objects"))
      else if name == "" || not (id_match 127 (codes name))
      then err (
          invalid_host (
            codes "hosts.json node name is missing or unsupported: "
            ++ env.repr (get "name" entry)))
      else if not (truthy found)
      then err (
          invalid_host (
            codes "hosts.json node "
            ++ env.repr (Json.str name)
            ++ codes " has no ssh_alias; multi-node discovery requires SSH to every node"))
      else ok (record { name = name; ssh_alias = text env.show found })

  unfoldable pub targets_of : Json → List Json → Result Error (List SshNode)
  unfolding target_of
  targets_of host [] = ok []
  targets_of host (e ∷ es) =
      and_then (target_of host e) λ t. and_then (targets_of host es) λ ts. ok (t ∷ ts)

  -- The one node of a host without a list of them.
  unfoldable pub single_target : Json → Result Error (List SshNode)
  unfolding text
  single_target host =
      if truthy (get "ssh_alias" host)
      then ok (
          record {
            name = text env.show (get "id" host);
            ssh_alias = text env.show (get "ssh_alias" host);
          }
          ∷ [])
      else err
          (invalid_host (codes "Host " ++ env.repr (get "id" host) ++ codes " has no ssh_alias"))

  -- What a loop over a value that is no list gives: keys and characters are no objects.
  unfoldable pub not_a_list : Json → Result Error (List SshNode)
  not_a_list (Json.obj fs) = err (invalid_host (codes "hosts.json nodes entries must be objects"))
  not_a_list (Json.str s) = err (invalid_host (codes "hosts.json nodes entries must be objects"))
  not_a_list v = err fault

  unfoldable pub listed_targets : Json → Json → Result Error (List SshNode)
  unfolding targets_of not_a_list
  listed_targets host (Json.arr xs) = targets_of host (elements xs)
  listed_targets host v = not_a_list v

  unfoldable pub configured_nodes : Json → Result Error (List SshNode)
  unfolding single_target listed_targets
  configured_nodes host =
      if truthy (get "nodes" host)
      then listed_targets host (get "nodes" host)
      else single_target host

  -- `_require(evidence_path(host_id, name), tool, label)`
  unfoldable pub require : String → String → String → String → Action (Unit {0})
  require host_id name tool label = do
    there ← has_evidence env.evidence host_id name
    ensure there
        (tool_error tool ("Run " <> label <> " first — no cached evidence for this host yet."))

  unfoldable pub require_all : String → String → List String → Action (Unit {0})
  unfolding require
  require_all host_id tool [] = pure tt
  require_all host_id tool (p ∷ ps) =
      require host_id p tool "discovery" >> require_all host_id tool ps

  -- `["--snapshot", path, …]`
  unfoldable pub snapshot_args : String → List String → List Text
  snapshot_args host_id [] = []
  snapshot_args host_id (p ∷ ps) =
      codes "--snapshot" ∷ env.path_of host_id p ∷ snapshot_args host_id ps

  unfoldable pub snapshot_cli_args : String → String → Action (List Text)
  unfolding require_all snapshot_args
  snapshot_cli_args host_id tool = do
    paths ← list_snapshot_paths env.evidence env.show host_id
    _ ←
        ensure (not (is_nil paths))
          (tool_error tool "Run discovery first — no cached evidence for this host yet.")
    _ ← require_all host_id tool paths
    pure (snapshot_args host_id paths)

  -- `host['remote_root']` in an f-string.
  unfoldable pub remote_root : Json → Result Error Text
  unfolding has_key text
  remote_root host =
      if has_key "remote_root" host
      then ok (codes (text env.show (get "remote_root" host)))
      else err fault

  -- `tools_sync.ensure_host_tools(host)`
  unfoldable pub sync_tools : Json → Action (Unit {0})
  unfolding ensure_host_tools
  sync_tools host = ensure_host_tools env.sync host false >> pure tt
