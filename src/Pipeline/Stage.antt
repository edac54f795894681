-- ===== src/Pipeline/Stage.antt =====
-- The staging of patch media on every node of a host: `step_stage_artifact`.
use oracle_patching.Prelude.{
  String, not, ◌||◌, Option, none, some, List, [], ◌++◌, ◌==◌, string_eq, nat_eq, if◌then◌else◌,
}
use oracle_patching.Prelude.Text.{codes, codes_eq, lower, starts_with, strip_slashes}
use oracle_patching.Exec.{Result, ok, err, pure, raise, lift, ensure, ◌>>=◌}
use oracle_patching.Json.{Json, get, truthy}
use oracle_patching.Phases.Values.{Fault, fault, dict_or_empty, dict_or_fault, stripped, text}
use oracle_patching.Remote.Quote.{Text}
use oracle_patching.Remote.Hosts.{host_ips}
use oracle_patching.Remote.Run.{RemoteError, remote_error}
use oracle_patching.World.{Error, remote, Action, over_ssh}
use oracle_patching.Pipeline.Targets.{invalid_input, configured_nodes, sync_tools}
use oracle_patching.Pipeline.Collect.{readable, clear_all}
use oracle_patching.Pipeline.Chain.{is_null}
use oracle_patching.Pipeline.Owner.{is_owner, stage_owner_from_snapshot}
use oracle_patching.Pipeline.Media.{probe_artifact_media, is_complete_media, attempted}
use oracle_patching.Pipeline.StageNodes.{
  Env, Source, from_host, from_zip, Route, auto, direct, relay, StageRequest, NodeResult,
  artifact_bound, is_relay, stage_nodes,
}

pub record Staging : Type 0 where
  pub artifact_dir : Text
  pub owner : String
  pub source : Source
  pub nodes : List NodeResult

module _ (env : Env) (host_id : String) where
  -- `(body.get("artifact_dir") or "").strip().rstrip("/")`
  unfoldable pub media_dir : Json → Action Text
  media_dir body = do
    given ← readable (stripped (get "artifact_dir" body))
    let dir = strip_slashes (codes given)
    _ ←
        ensure (starts_with (codes "/") dir)
          (invalid_input "artifact_dir must be an absolute path on the target host")
    pure dir

  unfoldable pub some_owner : Option String → Action String
  some_owner none =
      raise
        (invalid_input "owner is required (run discovery first so the Oracle Home owner is known)")
  some_owner (some owner) = do
    _ ←
        ensure (not (owner == "")) (
          invalid_input "owner is required (run discovery first so the Oracle Home owner is known)")
    _ ← ensure (is_owner (codes owner)) (
        remote (
          remote_error (codes "invalid_input")
            (codes "owner is not a valid user[:group]: " ++ env.base.repr (Json.str owner)) []))
    pure owner

  unfoldable pub media_owner : Json → Action String
  unfolding some_owner
  media_owner body = do
    given ← readable (stripped (get "owner" body))
    found ← (if given == "" then stage_owner_from_snapshot env.base host_id else pure (some given))
    some_owner found

  unknown_source : String → Error
  unknown_source src_host_id =
      remote (
        remote_error (codes "invalid_input") (codes "unknown source host: " ++ codes src_host_id)
          [])

  -- A managed host that holds complete media.
  unfoldable pub host_source : Text → Json → String → Action Source
  unfolding unknown_source
  host_source dir registered src_host_id = do
    hosts ← readable (dict_or_empty registered)
    _ ← ensure (not (is_null (get src_host_id hosts))) (unknown_source src_host_id)
    src_host ← readable (dict_or_fault (get src_host_id hosts))
    _ ← ensure (truthy (get "ssh_alias" src_host)) (unknown_source src_host_id)
    let src_alias = codes (text env.base.show (get "ssh_alias" src_host))
    let src_sudo = truthy (get "sudo" src_host)
    probe ← over_ssh (probe_artifact_media env.int_of env.base.ssh src_alias dir src_sudo)
    _ ← ensure (is_complete_media probe) (
        remote (
          remote_error (codes "source_incomplete")
            (codes src_host_id
              ++ codes " has no complete media at "
              ++ dir
              ++ codes " (state: "
              ++ probe.state
              ++ codes "); pick a host that does")
            []))
    pure (from_host src_host_id src_alias src_sudo)

  unfoldable pub media_source : Text → Json → Action Source
  unfolding host_source
  media_source dir body = do
    source ← readable (dict_or_empty (get "source" body))
    src_host_id ← readable (stripped (get "host_id" source))
    zip_path ← readable (stripped (get "zip_path" source))
    _ ←
        ensure (if src_host_id == "" then not (zip_path == "") else zip_path == "")
          (invalid_input "source must be exactly one of {host_id} or {zip_path}")
    _ ←
        ensure (zip_path == "" || starts_with (codes "/") (codes zip_path))
          (invalid_input "zip_path must be an absolute path on the target host")
    if src_host_id == ""
        then pure (from_zip zip_path)
        else host_source dir (get "_hosts" body) src_host_id

  -- `(body.get("transfer") or "auto").strip().lower()`
  unfoldable pub route_of : Text → Option Route
  route_of word =
      if codes_eq word (codes "auto")
      then some auto
      else if codes_eq word (codes "direct")
      then some direct
      else if codes_eq word (codes "relay")
      then some relay
      else none

  unfoldable pub some_route : Option Route → Action Route
  some_route (some route) = pure route
  some_route none = raise (invalid_input "transfer must be auto, direct or relay")

  unfoldable pub media_route : Json → Action Route
  unfolding route_of some_route
  media_route body = do
    word ←
        (if truthy (get "transfer" body)
          then readable (stripped (get "transfer" body))
          else pure "auto")
    some_route (route_of (lower (codes word)))

  -- `host['remote_root'].rstrip('/')`, of a text.
  unfoldable pub tool_path : Json → Result Fault Text
  tool_path (Json.str root) = ok (strip_slashes (codes root) ++ codes "/bin/opu-artifact-stage")
  tool_path v = err fault

  addresses : Result RemoteError (List Text) → List Text
  addresses (ok ips) = ips
  addresses (err e) = []

  -- The addresses of the source, where the media may go over directly.
  unfoldable pub source_ips : Source → Route → Action (List Text)
  unfolding addresses attempted is_relay
  source_ips (from_zip path) route = pure []
  source_ips (from_host src_host_id src_alias src_sudo) route =
      let asked = attempted (host_ips env.base.ssh src_alias 30) >>= λ r. pure (addresses r) in
      if is_relay route then pure [] else asked

  -- What is found out before the first node is touched.
  unfoldable pub prepare : Json → Json → Action StageRequest
  unfolding media_dir media_owner media_source media_route tool_path source_ips
  prepare host body = do
    dir ← media_dir body
    owner ← media_owner body
    source ← media_source dir body
    route ← media_route body
    _ ← sync_tools env.base host
    tool ← readable (tool_path (get "remote_root" host))
    src_ips ← source_ips source route
    pure (record {
      artifact_dir = dir;
      owner = owner;
      replace = truthy (get "replace" body);
      source = source;
      route = route;
      sudo = truthy (get "sudo" host);
      tool = tool;
      src_ips = src_ips;
    })

  unfoldable pub step_stage_artifact : Json → Json → Action Staging
  unfolding prepare stage_nodes clear_all
  step_stage_artifact host body = do
    request ← prepare host body
    nodes ← lift (configured_nodes env.base host)
    results ← stage_nodes env request nodes []
    _ ← clear_all env.base host_id artifact_bound
    pure (record {
      artifact_dir = request.artifact_dir;
      owner = request.owner;
      source = request.source;
      nodes = results;
    })
