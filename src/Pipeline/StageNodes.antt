-- ===== src/Pipeline/StageNodes.antt =====
-- The round of `step_stage_artifact` for a node, and its loop. `Env` says, by the ssh processes so far,
-- what `ssh-keygen` leaves, which UUID is drawn and how the two ends of a stream end. The lines that
-- are printed are left out.
use oracle_patching.Prelude.{
  ℕ, String, Bool, true, false, not, ◌&&◌, ◌||◌, Option, none, some, List, [], ◌∷◌, ◌++◌, ◌==◌,
  string_eq, ◌!=◌, nat_eq, if◌then◌else◌, take_last, last, is_nil,
}
use oracle_patching.Prelude.Text.{
  codes, codes_eq, lower, is_blank, pieces, starts_with, strip_slashes, trim,
}
use oracle_patching.Exec.{Result, ok, err, pure, raise, ensure, ◌>>=◌, ◌>>◌}
use oracle_patching.Json.{Json, find, fields}
use oracle_patching.Phases.Values.{dict_or_fault, text}
use oracle_patching.Remote.Quote.{Text}
use oracle_patching.Remote.Hosts.{is_break, host_ips, reachable_from}
use oracle_patching.Remote.Transfer.{Piped, Keygen, pipe_remote, direct_transfer}
use oracle_patching.Remote.Run.{
  RemoteError, remote_error, Call, Completed, remote_dir, run_remote_raw,
}
use oracle_patching.World.{Error, remote, Action, over_ssh}
use oracle_patching.Pipeline.Targets.{SshNode, invalid_input, configured_nodes, sync_tools}
use oracle_patching.Pipeline.Collect.{readable}
use oracle_patching.Pipeline.Media.{probe_artifact_media, is_complete_media, attempted}

pub record Env : Type 0 where
  pub base : oracle_patching.Pipeline.Targets.Env
  pub int_of : Text → Option Json
  pub repr_text : Text → Text
  pub keygen : List Call → Keygen
  pub marker_hex : List Call → Text
  pub pipes : List Call → Call → Call → Option Piped

pub data Source : Type 0 where
  from_host : (host_id : String) → (ssh_alias : Text) → (sudo : Bool) → Source
  from_zip : (path : String) → Source

pub data Route : Type 0 where
  auto direct relay : Route

-- What every node is given.
pub record StageRequest : Type 0 where
  pub artifact_dir : Text
  pub owner : String
  pub replace : Bool
  pub source : Source
  pub route : Route
  pub sudo : Bool
  pub tool : Text
  pub src_ips : List Text

-- An entry of `nodes`: what the staging tool printed, under what the entry says before it.
pub data NodeResult : Type 0 where
  already_complete : SshNode → (bytes : Option Json) → NodeResult
  staged : SshNode → (transfer : Text) → (payload : Json) → NodeResult

abbrev pub artifact_bound : List String
artifact_bound =
    "artifact" ∷ "procedure" ∷ "compatibility" ∷ "compatibility_reconciliation" ∷ "readiness" ∷ []

abbrev pub stage_timeout : ℕ
stage_timeout = 3600

-- `artifact_dir.rpartition("/")[2]`
unfoldable pub base_name : Text → Text
unfolding codes
base_name path = elim (last (pieces (λ c. c == b'/') [] path)) [ none ↦ [] | some name ↦ name ]

-- `["tar", "-C", parent or "/", "-cf", "-", name]`, for a path that has a "/".
unfoldable pub tar_argv : Text → List Text
unfolding base_name
tar_argv path =
    codes "tar" ∷ codes "-C" ∷ remote_dir path ∷ codes "-cf" ∷ codes "-" ∷ base_name path ∷ []

unfoldable pub stage_argv : StageRequest → List Text
stage_argv r =
    (r.tool ∷ codes "--artifact" ∷ r.artifact_dir ∷ codes "--owner" ∷ codes r.owner ∷ [])
    ++ (if r.replace then codes "--replace" ∷ [] else [])

is_direct : Route → Bool
is_direct direct = true
is_direct _ = false

unfoldable pub is_relay : Route → Bool
is_relay relay = true
is_relay _ = false

-- A key of the payload stands over the one before it.
unfoldable pub entry_value : String → Json → Json → Json
entry_value key before payload = elim (find key (fields payload)) [ none ↦ before | some v ↦ v ]

module _ (show : Json → String) where
  -- `f"{r['node']}={r['status']}"`
  unfoldable pub node_status : NodeResult → Text
  unfolding entry_value text
  node_status (already_complete node bytes) = codes node.name ++ codes "=already_complete"
  node_status (staged node transfer payload) =
      codes (text show (entry_value "node" (Json.str node.name) payload))
      ++ codes "="
      ++ codes (text show (entry_value "status" (Json.str "staged") payload))

  unfoldable pub shown_all : List NodeResult → Text
  unfolding node_status
  shown_all [] = []
  shown_all (r ∷ []) = node_status r
  shown_all (r ∷ s ∷ rs) = node_status r ++ codes ", " ++ shown_all (s ∷ rs)

or_none : Text → Text
or_none t = if is_blank t then codes "none" else t

module _ (env : Env) (r : StageRequest) where
  -- The end of a direct transfer that was tried.
  unfoldable pub sent_over :
      Text → Result RemoteError Completed → Action (Option (Completed × Text))
  unfolding is_direct
  sent_over dst_ip (ok proc) = pure (some (proc, codes "direct:" ++ dst_ip))
  sent_over dst_ip (err e) = ensure (not (is_direct r.route)) (remote e) >> pure none

  -- What goes over the hosts' own network, or `none`, where the control plane relays it.
  unfoldable pub direct_over :
      Text → Bool → SshNode → Option Text → Action (Option (Completed × Text))
  unfolding tar_argv stage_argv is_direct attempted sent_over
  direct_over src_alias src_sudo node none =
      ensure (not (is_direct r.route)) (
        remote (
          remote_error (codes "unreachable")
            (src_alias
              ++ codes " cannot reach node "
              ++ codes node.name
              ++ codes " on port 22; use transfer=relay")
            []))
      >> pure none
  direct_over src_alias src_sudo node (some dst_ip) =
      attempted (λ calls.
        direct_transfer env.base.ssh (env.keygen calls) (env.marker_hex calls) src_alias
          (tar_argv r.artifact_dir) (codes node.ssh_alias)
          (stage_argv r ++ (codes "--from-tar-stdin" ∷ [])) dst_ip r.src_ips stage_timeout src_sudo
          r.sudo calls)
      >>= sent_over dst_ip

  -- An address that is "" counts as none.
  reached : Result RemoteError (Option Text) → Option Text
  reached (ok (some ip)) = if is_blank ip then none else some ip
  reached (ok none) = none
  reached (err e) = none

  unfoldable pub try_direct : Text → Bool → SshNode → Action (Option (Completed × Text))
  unfolding direct_over is_relay attempted reached
  try_direct src_alias src_sudo node =
      let over =
        attempted (
          host_ips env.base.ssh (codes node.ssh_alias) 30 >>= λ ips.
          reachable_from env.repr_text env.base.ssh src_alias ips 22 45)
        >>= λ found. direct_over src_alias src_sudo node (reached found) in
      if is_relay r.route || is_nil r.src_ips then pure none else over

  -- `pipe_remote`, where nothing went over directly.
  unfoldable pub or_relay :
      Text → Bool → SshNode → Option (Completed × Text) → Action (Completed × Text)
  unfolding tar_argv stage_argv
  or_relay src_alias src_sudo node (some sent) = pure sent
  or_relay src_alias src_sudo node none =
      over_ssh (
        pipe_remote env.pipes src_alias (tar_argv r.artifact_dir) (codes node.ssh_alias)
          (stage_argv r ++ (codes "--from-tar-stdin" ∷ [])) stage_timeout src_sudo r.sudo)
      >>= λ proc. pure (proc, codes "relay")

  unfoldable pub send_to : SshNode → Source → Action (Completed × Text)
  unfolding try_direct or_relay stage_argv
  send_to node (from_host host_id src_alias src_sudo) =
      try_direct src_alias src_sudo node >>= λ sent. or_relay src_alias src_sudo node sent
  send_to node (from_zip path) =
      over_ssh (
        run_remote_raw env.base.ssh (codes node.ssh_alias)
          (stage_argv r ++ (codes "--from-zip" ∷ codes path ∷ [])) stage_timeout r.sudo)
      >>= λ proc. pure (proc, codes "zip")

  stage_failed : SshNode → List NodeResult → Completed → Error
  stage_failed node results proc = remote (
      remote_error (codes "stage_failed")
        (codes "Staging "
          ++ r.artifact_dir
          ++ codes " on node "
          ++ codes node.name
          ++ codes " failed (exit "
          ++ codes (oracle_patching.Prelude.Text.Decimal.decimal proc.returncode)
          ++ codes "); earlier nodes: "
          ++ or_none (shown_all env.base.show results))
        (take_last 2000
          (if is_blank (trim proc.stderr) then trim proc.stdout else trim proc.stderr)))

  unparsable : SshNode → Text → Text → Error
  unparsable node stdout why = remote (
      remote_error (codes "stage_failed")
        (codes "opu-artifact-stage on "
          ++ codes node.name
          ++ codes " produced unparsable output: "
          ++ why)
        (take_last 2000 stdout))

  -- `json.loads(stdout.strip().splitlines()[-1])`
  unfoldable pub last_json : Text → Result Text Json
  last_json stdout =
      if is_blank (trim stdout)
      then err (codes "list index out of range")
      else elim (last (pieces is_break [] (trim stdout))) [
        | none ↦ err (codes "list index out of range")
        | some line ↦ env.base.ssh.loads line
      ]

  unfoldable pub payload_of : SshNode → Text → Result Text Json → Action Json
  unfolding unparsable
  payload_of node stdout (ok payload) = readable (dict_or_fault payload)
  payload_of node stdout (err why) = raise (unparsable node stdout why)

  unfoldable pub stage_on : SshNode → List NodeResult → Action NodeResult
  unfolding send_to stage_failed payload_of last_json or_none
  stage_on node results = do
    sent ← send_to node r.source
    _ ← ensure (sent.0.returncode == 0) (stage_failed node results sent.0)
    payload ← payload_of node sent.0.stdout (last_json sent.0.stdout)
    pure (staged node sent.1 payload)

  -- The round of the loop for one node.
  unfoldable pub stage_node : SshNode → List NodeResult → Action NodeResult
  unfolding stage_on
  stage_node node results =
      over_ssh
        (probe_artifact_media env.int_of env.base.ssh (codes node.ssh_alias) r.artifact_dir r.sudo)
      >>= λ current.
          let fresh = stage_on node results in
          if is_complete_media current && not r.replace
          then pure (already_complete node current.bytes)
          else fresh

  unfoldable pub stage_nodes : List SshNode → List NodeResult → Action (List NodeResult)
  unfolding stage_node
  stage_nodes [] results = pure results
  stage_nodes (node ∷ nodes) results =
      stage_node node results >>= λ result. stage_nodes nodes (results ++ (result ∷ []))
