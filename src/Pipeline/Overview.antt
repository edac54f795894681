-- ===== src/Pipeline/Overview.antt =====
-- What an operator sees of a host's pipeline: `pipeline_state`.
use oracle_patching.Prelude.{
  String, Bool, false, not, ◌&&◌, Option, none, some, List, [], ◌∷◌, if◌then◌else◌, select, map,
}
use oracle_patching.Exec.{Result, ok, err, pure, ◌>>=◌}
use oracle_patching.Json.{Json, get, truthy, is_dict}
use oracle_patching.Phases.Values.{Fault}
use oracle_patching.Phases.Defs.{Phase}
use oracle_patching.Phases.Derive.{derive_discovery_phases, discovery_phases_rollup}
use oracle_patching.World.{Action}
use oracle_patching.Evidence.Store.{read_evidence}
use oracle_patching.Pipeline.Targets.{Env}
use oracle_patching.Pipeline.Collect.{readable}
use oracle_patching.Pipeline.Compat.{unpacked}
use oracle_patching.Pipeline.Chain.{
  Step, discovery, reconcile, artifact_inspect, procedure_validate, compatibility_collect,
  compatibility_reconcile, readiness_evaluate, step_order, step_status, is_null,
}

-- `EVIDENCE_NAME_FOR_STEP`
abbrev pub evidence_name : Step → String
evidence_name discovery = "snapshot"
evidence_name reconcile = "reconciliation"
evidence_name artifact_inspect = "artifact"
evidence_name procedure_validate = "procedure"
evidence_name compatibility_collect = "compatibility"
evidence_name compatibility_reconcile = "compatibility_reconciliation"
evidence_name readiness_evaluate = "readiness"

-- The fields that only the entry of one step has. The names of the nodes are there where the index
-- of snapshots has nodes.
pub data Extra : Type 0 where
  plain : Extra
  with_input : Option Json → Extra
  with_phases : List Phase → (rollup : String) → (captured : Option (List Json)) → Extra

pub record StepEntry : Type 0 where
  pub step : Step
  pub is_done : Bool
  pub status : Json
  pub evidence : Option Json
  pub extra : Extra

-- The document, and `null` for none.
unfoldable pub document_or_null : Option Json → Json
document_or_null none = Json.null
document_or_null (some j) = j

-- `payload is not None`; the document `null` is read as `None`.
unfoldable pub is_there : Option Json → Bool
unfolding is_null
is_there none = false
is_there (some j) = not (is_null j)

unfoldable pub entry_of : Step → Option Json → Extra → StepEntry
unfolding document_or_null is_there step_status
entry_of step payload extra = record {
  step = step;
  is_done = is_there payload;
  status = step_status step (document_or_null payload);
  evidence = payload;
  extra = extra;
}

-- The names of the nodes that are listed.
unfoldable pub captured_names : List Json → List Json
captured_names nodes = select truthy (map (get "name") (select is_dict nodes))

unfoldable pub captured : Option Json → Result Fault (Option (List Json))
unfolding captured_names
captured none = ok none
captured (some index) =
    let names =
      oracle_patching.Exec.and_then (unpacked (get "nodes" index))
        λ nodes. ok (some (captured_names nodes)) in
    if is_dict index && truthy (get "nodes" index) then names else ok none

-- The entry of the discovery: a snapshot has no status of its own, so that of the phases stands in.
unfoldable pub discovery_entry : Option Json → List Phase → Option (List Json) → StepEntry
unfolding entry_of is_there
discovery_entry payload phases names =
    let rollup = discovery_phases_rollup phases in
    let entry = entry_of discovery payload (with_phases phases rollup names) in
    if is_null entry.status && is_there payload
    then record entry { status = Json.str rollup }
    else entry

module _ (env : Env) (host_id : String) where
  unfoldable pub entry_for : Step → Option Json → Action StepEntry
  unfolding entry_of discovery_entry captured document_or_null
  entry_for discovery payload =
      readable (derive_discovery_phases env.show (document_or_null payload)) >>= λ phases.
      read_evidence env.evidence host_id "snapshot_nodes" >>= λ index.
      readable (captured index) >>= λ names. pure (discovery_entry payload phases names)
  entry_for procedure_validate payload =
      read_evidence env.evidence host_id "procedure_input" >>= λ input.
      pure (entry_of procedure_validate payload (with_input input))
  entry_for step payload = pure (entry_of step payload plain)

  unfoldable pub entries : List Step → Action (List StepEntry)
  unfolding entry_for
  entries [] = pure []
  entries (step ∷ steps) = read_evidence env.evidence host_id (evidence_name step) >>= λ payload.
      entry_for step payload >>= λ entry. entries steps >>= λ rest. pure (entry ∷ rest)

  unfoldable pub pipeline_state : Action (List StepEntry)
  unfolding entries
  pipeline_state = entries step_order
