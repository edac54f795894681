-- ===== src/Pipeline/Media.antt =====
-- Where complete patch media is: `probe_artifact_media` and `artifact_sources`. `int_of` is the number
-- that `int` reads in a text, where it reads one.
use oracle_patching.Prelude.{
  String, Bool, not, Option, none, some, List, [], ◌∷◌, ◌++◌, ◌==◌, string_eq, ◌!=◌, nat_eq,
  if◌then◌else◌, map, select,
}
use oracle_patching.Prelude.Text.{codes, codes_eq, lower, is_blank, pieces, starts_with, trim}
use oracle_patching.Exec.{Exec, Result, ok, err, pure, lift, ensure, ◌>>=◌}
use oracle_patching.Json.{Json, get, truthy}
use oracle_patching.Phases.Values.{dict_or_fault, text}
use oracle_patching.Remote.Quote.{Text, quote}
use oracle_patching.Remote.Hosts.{is_break}
use oracle_patching.Remote.Run.{
  RemoteError, remote_error, Call, Completed, refuse_if, run_remote_shell,
}
use oracle_patching.World.{Action, over_ssh}
use oracle_patching.Pipeline.Targets.{Env, SshNode, invalid_input, configured_nodes}
use oracle_patching.Pipeline.Collect.{readable}
use oracle_patching.Pipeline.Owner.{stage_owner_from_snapshot}

pub record Probe : Type 0 where
  pub ssh_alias : Text
  pub state : Text
  pub bytes : Option Json
  pub owner : Option Text

unfoldable pub probe_script : Text → Text
probe_script artifact_dir =
    codes "d="
    ++ quote artifact_dir
    ++ codes
        "; if [ ! -d \"$d\" ]; then echo MISSING; exit 0; fi; if [ -f \"$d/etc/config/inventory.xml\" ] && [ -d \"$d/files\" ] && [ -n \"$(find \"$d/files\" -type f -print -quit 2>/dev/null)\" ]; then echo COMPLETE; else echo INCOMPLETE; fi; du -sk \"$d\" 2>/dev/null | awk '{print $1*1024}'; stat -c %U:%G \"$d\" 2>/dev/null"

-- `[ln.strip() for ln in stdout.splitlines() if ln.strip()]`
unfoldable pub probe_lines : Text → List Text
unfolding is_break
probe_lines stdout = select (λ line. not (is_blank line)) (map trim (pieces is_break [] stdout))

module _ (int_of : Text → Option Json) where
  -- The lines of the answer: the state, the size and the owner.
  unfoldable pub probe_of : Text → List Text → Probe
  probe_of ssh_alias [] = record {
    ssh_alias = ssh_alias;
    state = codes "missing";
    bytes = none;
    owner = none;
  }
  probe_of ssh_alias (state ∷ rest) =
      let known : Probe = record {
        ssh_alias = ssh_alias;
        state = lower state;
        bytes = elim rest [ [] ↦ none | size ∷ more ↦ int_of size ];
        owner = elim rest [
          | [] ↦ none
          | size ∷ more ↦ elim more [ [] ↦ none | owner ∷ others ↦ some owner ]
        ];
      } in
      let missing : Probe = record {
        ssh_alias = ssh_alias;
        state = lower state;
        bytes = none;
        owner = none;
      } in
      if codes_eq state (codes "MISSING") then missing else known

  unfoldable pub probe_artifact_media :
      oracle_patching.Remote.Run.Env → Text → Text → Bool → Exec RemoteError (List Call) Probe
  unfolding probe_script probe_lines probe_of
  probe_artifact_media env ssh_alias artifact_dir sudo = do
    result ← run_remote_shell env ssh_alias (probe_script artifact_dir) 90 sudo
    _ ← refuse_if (result.returncode != 0) (
        remote_error (codes "probe_failed")
          (codes "Could not inspect " ++ artifact_dir ++ codes " on " ++ ssh_alias)
          (trim result.stderr))
    pure (probe_of ssh_alias (probe_lines result.stdout))

unfoldable pub is_complete_media : Probe → Bool
is_complete_media p = codes_eq p.state (codes "complete")

module _ {A : Type 0} where
  abbrev pub answer :
      Result RemoteError A × List Call → Result RemoteError (Result RemoteError A) × List Call
  answer (r, calls) = (ok r, calls)

  -- `try: m` with `except RemoteError`, which the caller decides on.
  unfoldable pub attempted : Exec RemoteError (List Call) A → Action (Result RemoteError A)
  unfolding over_ssh
  attempted m = over_ssh λ calls. answer (m calls)

-- An entry of `targets` or `sources`: an unreachable one has the message of the error.
pub record Place (L : Type 0) : Type 0 where
  pub label : L
  pub ssh_alias : Text
  pub found : Result Text Probe

pub record OtherHost : Type 0 where
  pub host_id : String
  pub label : Json

pub record Places : Type 0 where
  pub owner : Option String
  pub targets : List (Place String)
  pub sources : List (Place OtherHost)

unfoldable pub place : {L : Type 0} → L → Text → Result RemoteError Probe → Place L
place label ssh_alias (ok p) = record { label = label; ssh_alias = ssh_alias; found = ok p }
place label ssh_alias (err e) = record {
  label = label;
  ssh_alias = ssh_alias;
  found = err e.message;
}

module _ (int_of : Text → Option Json) (env : Env) (host_id : String) (artifact_dir : String) where
  unfoldable pub probe_place : {L : Type 0} → L → Text → Bool → Action (Place L)
  unfolding attempted probe_artifact_media place
  probe_place label ssh_alias sudo =
      attempted (probe_artifact_media int_of env.ssh ssh_alias (codes artifact_dir) sudo) >>= λ r.
      pure (place label ssh_alias r)

  unfoldable pub target_places : List SshNode → Bool → Action (List (Place String))
  unfolding probe_place
  target_places [] sudo = pure []
  target_places (node ∷ nodes) sudo = probe_place node.name (codes node.ssh_alias) sudo >>= λ p.
      target_places nodes sudo >>= λ ps. pure (p ∷ ps)

  -- `other.get("label") or other_id`
  unfoldable pub label_of : String → Json → Json
  label_of other_id other =
      if truthy (get "label" other) then get "label" other else Json.str other_id

  unfoldable pub source_place : String → Json → Action (Place OtherHost)
  unfolding probe_place label_of
  source_place other_id other =
      probe_place (record { host_id = other_id; label = label_of other_id other })
        (codes (text env.show (get "ssh_alias" other))) (truthy (get "sudo" other))

  unfoldable pub source_places : List (String × Json) → Action (List (Place OtherHost))
  unfolding source_place
  source_places [] = pure []
  source_places ((other_id, other) ∷ others) =
      let probed =
        source_place other_id other >>= λ p. source_places others >>= λ ps. pure (p ∷ ps) in
      let asked = readable (dict_or_fault other) >>= λ o.
      if truthy (get "ssh_alias" o) then probed else source_places others in
      if other_id == host_id then source_places others else asked

  unfoldable pub artifact_sources : Json → List (String × Json) → Action Places
  unfolding target_places source_places
  artifact_sources host hosts = do
    _ ←
        ensure (starts_with (codes "/") (codes artifact_dir))
          (invalid_input "artifact_dir must be an absolute path")
    nodes ← lift (configured_nodes env host)
    targets ← target_places nodes (truthy (get "sudo" host))
    sources ← source_places hosts
    owner ← stage_owner_from_snapshot env host_id
    pure (record { owner = owner; targets = targets; sources = sources })
