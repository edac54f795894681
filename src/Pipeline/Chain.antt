-- ===== src/Pipeline/Chain.antt =====
-- The readiness chain: `_step_status`, `_CHAIN_OK` and `step_readiness_chain`. The times that a report
-- carries, and the lines that are logged, are left out.
use oracle_patching.Prelude.{
  String, Bool, true, false, Option, none, some, List, [], ◌∷◌, ◌++◌, ◌==◌, string_eq,
  if◌then◌else◌,
}
use oracle_patching.Prelude.Text.{codes, starts_with}
use oracle_patching.Exec.{Result, ok, err, pure, raise, lift, ensure, ◌>>=◌, ◌>>◌}
use oracle_patching.Json.{Json, Items, get, truthy, is_dict, is_str, object}
use oracle_patching.Phases.Values.{Fault, fault, dict_or_fault, dict_or_empty, stripped}
use oracle_patching.World.{Action}
use oracle_patching.Evidence.Store.{read_evidence}
use oracle_patching.Pipeline.Targets.{Env, tool_error}
use oracle_patching.Pipeline.Collect.{
  readable, step_discovery, step_reconcile, step_artifact_inspect, step_procedure_validate,
}
use oracle_patching.Pipeline.Compat.{
  step_compatibility_collect, step_compatibility_reconcile, step_readiness_evaluate,
}
use oracle_patching.Pipeline.Refresh.{document, refresh_procedure_input}

-- The steps of `STEP_ORDER`, which are those of the chain.
pub data Step : Type 0 where
  discovery reconcile artifact_inspect procedure_validate : Step
  compatibility_collect compatibility_reconcile readiness_evaluate : Step

abbrev pub step_order : List Step
step_order =
    discovery ∷ reconcile ∷ artifact_inspect ∷ procedure_validate ∷ compatibility_collect
    ∷ compatibility_reconcile ∷ readiness_evaluate ∷ []

-- `_step_status`; `None` is `null`.
unfoldable pub is_null : Json → Bool
is_null Json.null = true
is_null _ = false

unfoldable pub artifact_status : Step → Json → Json
artifact_status artifact_inspect payload = get "status" (get "artifact" payload)
artifact_status _ payload = Json.null

unfoldable pub step_status : Step → Json → Json
unfolding is_null artifact_status
step_status step payload =
    if is_null (get "status" payload) then artifact_status step payload else get "status" payload

-- The status that lets the chain go on.
unfoldable pub good_status : Step → String
good_status discovery = ""
good_status reconcile = "consistent"
good_status artifact_inspect = "ready_for_catalog"
good_status procedure_validate = "ready_for_planning"
good_status compatibility_collect = "passed"
good_status compatibility_reconcile = "passed"
good_status readiness_evaluate = "ready_for_approval"

has_good_status : Step → Json → Result Fault Bool
unfolding good_status
has_good_status step v =
    oracle_patching.Exec.and_then (dict_or_fault v)
      λ d. ok (is_str (good_status step) (get "status" d))

-- `_CHAIN_OK[name](result)`
unfoldable pub chain_ok : Step → Json → Result Fault Bool
unfolding has_good_status
chain_ok discovery r = ok true
chain_ok artifact_inspect r = oracle_patching.Exec.and_then (dict_or_fault r) λ d.
    oracle_patching.Exec.and_then (dict_or_empty (get "artifact" d))
      (has_good_status artifact_inspect)
chain_ok reconcile r = has_good_status reconcile r
chain_ok procedure_validate r = has_good_status procedure_validate r
chain_ok compatibility_collect r = has_good_status compatibility_collect r
chain_ok compatibility_reconcile r = has_good_status compatibility_reconcile r
chain_ok readiness_evaluate r = has_good_status readiness_evaluate r

pub record StepReport : Type 0 where
  pub step : Step
  pub status : Json
  pub is_ok : Bool

pub record ChainResult : Type 0 where
  pub status : String
  pub stopped_at : Option Step
  pub steps : List StepReport
  pub findings : Json
  pub readiness : Json

-- `findings if isinstance(findings, list) else []`
unfoldable pub list_or_none : Json → Json
list_or_none (Json.arr xs) = Json.arr xs
list_or_none v = Json.arr Items.nil

unfoldable pub readiness_of : Step → Json → Json
readiness_of readiness_evaluate result = result
readiness_of step result = Json.null

unfoldable pub stopped : Step → Json → List StepReport → ChainResult
unfolding list_or_none readiness_of
stopped step result steps = record {
  status = "blocked";
  stopped_at = some step;
  steps = steps;
  findings = list_or_none (get "findings" result);
  readiness = readiness_of step result;
}

-- The inputs of the chain.
pub record Inputs : Type 0 where
  pub artifact_dir : String
  pub procedure : Json
  pub policy : Json

module _ (env : Env) (host_id : String) (host : Json) where
  unfoldable pub validate_refreshed : Json → Action Json
  validate_refreshed procedure = do
    artifact ← read_evidence env.evidence host_id "artifact"
    input ← readable (refresh_procedure_input artifact procedure)
    step_procedure_validate env host_id (object (("procedure", input) ∷ []))

  -- The entry of `plan` for a step.
  unfoldable pub run_step : Inputs → Step → Action Json
  unfolding validate_refreshed
  run_step inputs discovery = step_discovery env host_id host
  run_step inputs reconcile = step_reconcile env host_id
  run_step inputs artifact_inspect =
      step_artifact_inspect env host_id host
        (object (("artifact_dir", Json.str inputs.artifact_dir) ∷ []))
  run_step inputs procedure_validate = validate_refreshed inputs.procedure
  run_step inputs compatibility_collect =
      step_compatibility_collect env host_id host
        (object (("artifact_dir", Json.str inputs.artifact_dir) ∷ []))
  run_step inputs compatibility_reconcile = step_compatibility_reconcile env host_id
  run_step inputs readiness_evaluate =
      step_readiness_evaluate env host_id (object (("policy", inputs.policy) ∷ []))

  or_null : Option Json → Json
  or_null none = Json.null
  or_null (some j) = j

  unfoldable pub finished : List StepReport → Action ChainResult
  unfolding or_null
  finished steps = do
    readiness ← read_evidence env.evidence host_id "readiness"
    pure (record {
      status = "ready_for_approval";
      stopped_at = none;
      steps = steps;
      findings = Json.arr Items.nil;
      readiness = or_null readiness;
    })

  -- The loop over the plan, with the reports so far.
  unfoldable pub run_plan : Inputs → List Step → List StepReport → Action ChainResult
  unfolding run_step chain_ok step_status stopped finished
  run_plan inputs [] reports = finished reports
  run_plan inputs (step ∷ steps) reports = run_step inputs step >>= λ result.
      readable (chain_ok step result) >>= λ is_ok.
      let report : StepReport = record {
        step = step;
        status = step_status step result;
        is_ok = is_ok;
      } in
      let later = run_plan inputs steps (reports ++ (report ∷ [])) in
      if is_ok then later else pure (stopped step result (reports ++ (report ∷ [])))

  -- A text, or `""` for a value that is false.
  unfoldable pub text_only : Json → Result Fault String
  text_only (Json.str s) = ok s
  text_only v = if truthy v then err fault else ok ""

  -- The path that was inspected last.
  unfoldable pub inspected_dir : Action String
  unfolding text_only
  inspected_dir = do
    saved ← read_evidence env.evidence host_id "artifact"
    inspected ← readable (document saved)
    artifact ← readable (dict_or_empty (get "artifact" inspected))
    readable (text_only (get "path" artifact))

  unfoldable pub known_dir : Json → Action String
  unfolding inspected_dir
  known_dir body = do
    given ← readable (stripped (get "artifact_dir" body))
    dir ← (if given == "" then inspected_dir else pure given)
    _ ← ensure (starts_with (codes "/") (codes dir)) (
        tool_error "readiness-chain"
          "No artifact path known for this host — run Artifact inspection once first.")
    pure dir

  unfoldable pub read_saved : Json → String → Action Json
  unfolding or_null
  read_saved given name =
      let saved = read_evidence env.evidence host_id name >>= λ j. pure (or_null j) in
      if is_dict given then pure given else saved

  -- The document of the body, or the one that was saved under a name.
  unfoldable pub known_document : Json → String → String → Action Json
  unfolding read_saved
  known_document given name message = do
    saved ← read_saved given name
    _ ← ensure (is_dict saved) (tool_error "readiness-chain" message)
    pure saved

  unfoldable pub step_readiness_chain : Json → Action ChainResult
  unfolding known_dir known_document run_plan
  step_readiness_chain body = do
    dir ← known_dir body
    procedure ←
        known_document (get "procedure" body) "procedure_input"
          "No procedure input saved for this host — run Procedure validation once first."
    policy ←
        known_document (get "policy" body) "policy"
          "No readiness policy saved for this host — run Readiness evaluation once first."
    run_plan (record { artifact_dir = dir; procedure = procedure; policy = policy }) step_order []

  -- The functions of `STEPS` that make up the chain, each with the body of a request.
  unfoldable pub step_of : Step → Json → Action Json
  step_of discovery body = step_discovery env host_id host
  step_of reconcile body = step_reconcile env host_id
  step_of artifact_inspect body = step_artifact_inspect env host_id host body
  step_of procedure_validate body = step_procedure_validate env host_id body
  step_of compatibility_collect body = step_compatibility_collect env host_id host body
  step_of compatibility_reconcile body = step_compatibility_reconcile env host_id
  step_of readiness_evaluate body = step_readiness_evaluate env host_id body
