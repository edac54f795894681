-- ===== src/Pipeline/Built.antt =====
-- The later steps keep the evidence of their host in order: what a document is built on is asked for
-- first, and is still there when the document is written. So does the chain.
use Prim.Native.String.{String}
use oracle_patching.Prelude.{refl, List, [], ◌∷◌}
use oracle_patching.Exec.Triple.{Triple-bind, Triple-if, keeps-Triple}
use oracle_patching.Json.{Json, get}
use oracle_patching.World.{World}
use oracle_patching.World.Quiet.{Quiet, Quiet-pure, Quiet-lift, Quiet-ensure, Quiet-bind, Quiet-if}
use oracle_patching.Pipeline.Targets.{Env}
use oracle_patching.Pipeline.Compat.{
  step_compatibility_collect, step_compatibility_reconcile, step_readiness_evaluate,
}
use oracle_patching.Pipeline.Chain.{
  Step, discovery, reconcile, artifact_inspect, procedure_validate, compatibility_collect,
  compatibility_reconcile, readiness_evaluate, StepReport, Inputs, validate_refreshed, run_step,
  run_plan, inspected_dir, known_dir, read_saved, known_document, finished, step_readiness_chain,
  step_of, step_order,
}
use oracle_patching.Pipeline.Reads.{
  run_tool-Quiet, readable-Quiet, sync_tools-Quiet, snapshot_cli_args-Quiet, absolute_dir-Quiet,
  collect_all-Quiet, asserted-Quiet, read_evidence-Quiet,
}
use oracle_patching.Pipeline.Layers.{
  Shelf, Has, Layered, placed, Has-placed, Layered-placed, no_truth,
}
use oracle_patching.Pipeline.Writes.{On}
use oracle_patching.Pipeline.Rules.{
  Orderly, read_then, read_last, require_then, write_then, placed-other,
}
use oracle_patching.Pipeline.Orderly.{
  same, done, step_discovery-Orderly, step_reconcile-Orderly, step_artifact_inspect-Orderly,
  step_procedure_validate-Orderly,
}

-- One document after the other was asked for.
abbrev Asked : List String → Shelf → Type 0
Asked [] f = Layered f
Asked (n ∷ ns) f = Asked ns f × Has f n

Asked-Layered : (ns : List String) (f : Shelf) → Asked ns f → Layered f
Asked-Layered [] f l = l
Asked-Layered (n ∷ ns) f p = Asked-Layered ns f p.0

Asked-placed :
    (name : String) (payload : Json) (ns : List String) (f : Shelf)
    → (Layered f → Layered (placed name payload f))
    → Asked ns f
    → Asked ns (placed name payload f)
Asked-placed name payload [] f keep l = keep l
Asked-placed name payload (n ∷ ns) f keep p =
    (Asked-placed name payload ns f keep p.0, Has-placed name payload f n p.1)

abbrev collect_needs : List String
collect_needs = "procedure" ∷ "artifact" ∷ "snapshot" ∷ []

abbrev reconcile_needs : List String
reconcile_needs = "compatibility" ∷ "procedure" ∷ "reconciliation" ∷ []

abbrev evaluate_needs : List String
evaluate_needs = "compatibility_reconciliation" ∷ "procedure" ∷ "artifact" ∷ "reconciliation" ∷ []

module _ (env : Env) (h : String) where
  pub step_compatibility_collect-Orderly :
      (host body : Json) → Orderly env h Layered (step_compatibility_collect env h host body)
  unfolding step_compatibility_collect
  step_compatibility_collect-Orderly host body =
      let first = Asked-Layered collect_needs in
      read_then env h same _ _ (absolute_dir-Quiet env body _) λ dir.
        require_then env h (Asked-Layered []) "snapshot" _ _ _ λ _.
          require_then env h (Asked-Layered ("snapshot" ∷ [])) "artifact" _ _ _ λ _.
            require_then env h (Asked-Layered ("artifact" ∷ "snapshot" ∷ [])) "procedure" _ _ _ λ _.
              read_then env h first _ _ (sync_tools-Quiet env host) λ _.
                read_then env h first _ _ (Quiet-lift _) λ nodes.
                  read_then env h first _ _ (Quiet-lift _) λ root.
                    read_then env h first _ _ (collect_all-Quiet env h host root dir _ nodes _)
                      λ merged. read_then env h first _ _ (asserted-Quiet env merged) λ result.
                        write_then env h first Layered "compatibility" result _
                          (λ f p.
                            Layered-placed "compatibility" result f (first f p)
                              (λ q. absurd (no_truth q)) (λ q. absurd (no_truth q))
                              (λ _. (p.0.0.1, p.0.1, p.1)) (λ q. absurd (no_truth q)))
                          λ _. done env h result

  pub step_compatibility_reconcile-Orderly :
      Orderly env h Layered (step_compatibility_reconcile env h)
  unfolding step_compatibility_reconcile
  step_compatibility_reconcile-Orderly =
      let first = Asked-Layered reconcile_needs in
      require_then env h (Asked-Layered []) "reconciliation" _ _ _ λ _.
        require_then env h (Asked-Layered ("reconciliation" ∷ [])) "procedure" _ _ _ λ _.
          require_then env h (Asked-Layered ("procedure" ∷ "reconciliation" ∷ [])) "compatibility" _
            _ _
            λ _. read_then env h first _ _ (run_tool-Quiet env.local _ _) λ result.
              write_then env h first Layered "compatibility_reconciliation" result _
                (λ f p.
                  Layered-placed "compatibility_reconciliation" result f (first f p)
                    (λ q. absurd (no_truth q)) (λ _. (p.1, p.0.0.1, p.0.1))
                    (λ q. absurd (no_truth q)) (λ q. absurd (no_truth q)))
                λ _. done env h result

  pub step_readiness_evaluate-Orderly :
      (body : Json) → Orderly env h Layered (step_readiness_evaluate env h body)
  unfolding step_readiness_evaluate
  step_readiness_evaluate-Orderly body =
      let first = Asked-Layered evaluate_needs in
      let policy = get "policy" body in
      read_then env h same _ _ (Quiet-ensure _ _) λ _.
        require_then env h (Asked-Layered []) "reconciliation" _ _ _ λ _.
          require_then env h (Asked-Layered ("reconciliation" ∷ [])) "artifact" _ _ _ λ _.
            require_then env h (Asked-Layered ("artifact" ∷ "reconciliation" ∷ [])) "procedure" _ _
              _
              λ _.
                require_then env h
                  (Asked-Layered ("procedure" ∷ "artifact" ∷ "reconciliation" ∷ []))
                  "compatibility_reconciliation" _ _ _
                  λ _.
                    write_then env h first (Asked evaluate_needs) "policy" policy _
                      (λ f.
                        Asked-placed "policy" policy evaluate_needs f
                          (placed-other "policy" policy f refl refl refl refl))
                      λ _. read_then env h first _ _ (snapshot_cli_args-Quiet env h _) λ snapshots.
                        read_then env h first _ _ (run_tool-Quiet env.local _ _) λ result.
                          write_then env h first Layered "readiness" result _
                            (λ f p.
                              Layered-placed "readiness" result f (first f p)
                                (λ _. (p.1, p.0.0.0.1, p.0.1, p.0.0.1)) (λ q. absurd (no_truth q))
                                (λ q. absurd (no_truth q)) (λ q. absurd (no_truth q)))
                            λ _. done env h result

module _ (env : Env) (h : String) (host : Json) where
  validate_refreshed-Orderly :
      (procedure : Json) → Orderly env h Layered (validate_refreshed env h host procedure)
  unfolding validate_refreshed
  validate_refreshed-Orderly procedure =
      read_then env h same _ _ (read_evidence-Quiet env.evidence h _) λ artifact.
        read_then env h same _ _ (readable-Quiet _) λ input. step_procedure_validate-Orderly env h _

  pub run_step-Orderly :
      (inputs : Inputs) (step : Step) → Orderly env h Layered (run_step env h host inputs step)
  unfolding run_step
  run_step-Orderly inputs discovery = step_discovery-Orderly env h host
  run_step-Orderly inputs reconcile = step_reconcile-Orderly env h
  run_step-Orderly inputs artifact_inspect = step_artifact_inspect-Orderly env h host _
  run_step-Orderly inputs procedure_validate = validate_refreshed-Orderly inputs.procedure
  run_step-Orderly inputs compatibility_collect = step_compatibility_collect-Orderly env h host _
  run_step-Orderly inputs compatibility_reconcile = step_compatibility_reconcile-Orderly env h
  run_step-Orderly inputs readiness_evaluate = step_readiness_evaluate-Orderly env h _

  pub finished-Quiet : (reports : List StepReport) → Quiet (finished env h host reports)
  unfolding finished
  finished-Quiet reports =
      Quiet-bind _ _ (read_evidence-Quiet env.evidence h _) λ readiness. Quiet-pure _

  run_plan-Orderly :
      (inputs : Inputs) (steps : List Step) (reports : List StepReport)
      → Orderly env h Layered (run_plan env h host inputs steps reports)
  unfolding run_plan
  run_plan-Orderly inputs [] reports = read_last env h same _ (finished-Quiet reports)
  run_plan-Orderly inputs (step ∷ steps) reports =
      Triple-bind (λ _. On h Layered) _ _ (run_step-Orderly inputs step)
        λ result.
          read_then env h same _ _ (readable-Quiet _)
            λ is_ok. Triple-if is_ok _ _ (λ _. run_plan-Orderly inputs steps _) (λ _. done env h _)

  step_of-Orderly :
      (step : Step) (body : Json) → Orderly env h Layered (step_of env h host step body)
  unfolding step_of
  step_of-Orderly discovery body = step_discovery-Orderly env h host
  step_of-Orderly reconcile body = step_reconcile-Orderly env h
  step_of-Orderly artifact_inspect body = step_artifact_inspect-Orderly env h host body
  step_of-Orderly procedure_validate body = step_procedure_validate-Orderly env h body
  step_of-Orderly compatibility_collect body = step_compatibility_collect-Orderly env h host body
  step_of-Orderly compatibility_reconcile body = step_compatibility_reconcile-Orderly env h
  step_of-Orderly readiness_evaluate body = step_readiness_evaluate-Orderly env h body

  -- Every step, returning or raising, keeps the evidence of its host in order: a document is there
  -- only with those that it is built on (readiness with the compatibility reconciliation, the
  -- reconciliation, the procedure and the artifact; the compatibility reconciliation with the
  -- compatibility, the reconciliation and the procedure; the compatibility with the snapshot, the
  -- artifact and the procedure; the procedure with the artifact), and no file is a symbolic link.
  pub step_of-Layered :
      (step : Step) (body : Json) (w : World)
      → Layered (w.files h)
      → Layered ((step_of env h host step body w).1.files h)
  step_of-Layered step body w l = keeps-Triple _ w (step_of-Orderly step body) l

  inspected_dir-Quiet : Quiet (inspected_dir env h host)
  unfolding inspected_dir
  inspected_dir-Quiet = Quiet-bind _ _ (read_evidence-Quiet env.evidence h _) λ saved.
      Quiet-bind _ _ (readable-Quiet _)
        λ inspected. Quiet-bind _ _ (readable-Quiet _) λ artifact. readable-Quiet _

  pub known_dir-Quiet : (body : Json) → Quiet (known_dir env h host body)
  unfolding known_dir
  known_dir-Quiet body = Quiet-bind _ _ (readable-Quiet _) λ given.
      Quiet-bind _ _ (Quiet-if _ _ _ inspected_dir-Quiet (Quiet-pure given))
        λ dir. Quiet-bind _ _ (Quiet-ensure _ _) λ _. Quiet-pure dir

  pub known_document-Quiet :
      (given : Json) (name message : String) → Quiet (known_document env h host given name message)
  unfolding known_document read_saved
  known_document-Quiet given name message =
      Quiet-bind _ _
        (Quiet-if _ _ _ (Quiet-pure given)
          (Quiet-bind _ _ (read_evidence-Quiet env.evidence h name) λ j. Quiet-pure _))
        λ saved. Quiet-bind _ _ (Quiet-ensure _ _) λ _. Quiet-pure saved

  pub step_readiness_chain-Orderly :
      (body : Json) → Orderly env h Layered (step_readiness_chain env h host body)
  unfolding step_readiness_chain
  step_readiness_chain-Orderly body = read_then env h same _ _ (known_dir-Quiet body) λ dir.
      read_then env h same _ _ (known_document-Quiet _ _ _) λ procedure.
        read_then env h same _ _ (known_document-Quiet _ _ _)
          λ policy. run_plan-Orderly _ step_order []
