-- ===== src/Pipeline/Approved.antt =====
-- What a chain that ends with `ready_for_approval` has done.
use mathlib.Core.List.{append-nil, append_assoc}
use Prim.Native.String.{String}
use oracle_patching.Prelude.{
  ◌≡◌, refl, sym, ap, ◌∙◌, subst, Bool, true, false, none, List, [], ◌∷◌, ◌++◌, if◌then◌else◌,
  eq_iff,
}
use oracle_patching.Exec.{Result, ok, err, pure, raise, ◌>>=◌, >>=-eq-ok}
use oracle_patching.Exec.Triple.{Triple, Triple-bind, Triple-pure, Triple-keeps, Triple-ok}
use oracle_patching.Json.{Json}
use oracle_patching.Phases.Values.{Fault}
use oracle_patching.World.{File, doc, World, Error, Action}
use oracle_patching.Evidence.Store.{read_evidence}
use oracle_patching.Pipeline.Targets.{Env}
use oracle_patching.Pipeline.Collect.{readable}
use oracle_patching.Pipeline.Compat.{step_readiness_evaluate}
use oracle_patching.Pipeline.Chain.{
  Step, discovery, reconcile, artifact_inspect, procedure_validate, compatibility_collect,
  compatibility_reconcile, readiness_evaluate, step_order, step_status, chain_ok, StepReport,
  ChainResult, Inputs, stopped, run_step, run_plan, finished, known_dir, known_document,
  step_readiness_chain,
}
use oracle_patching.Pipeline.Layers.{no_truth}
use oracle_patching.World.Quiet.{Quiet}
use oracle_patching.Pipeline.Built.{finished-Quiet, known_dir-Quiet, known_document-Quiet}
use oracle_patching.Pipeline.Writes.{Triple-write}

abbrev before_last : List Step
before_last =
    discovery ∷ reconcile ∷ artifact_inspect ∷ procedure_validate ∷ compatibility_collect
    ∷ compatibility_reconcile ∷ []

abbrev Always : World → Type 0
Always w = Unit

always : {A : Type 0} (m : Action A) → Triple Always m (λ _. Always) Always
always m = Triple-keeps m λ w h. tt

-- Whatever a part does, if the rest promises something from every state.
any_then :
    {A B : Type 0} {Q : B → World → Type 0} (m : Action A) (k : A → Action B)
    → ((a : A) → Triple Always (k a) Q Always)
    → Triple Always (m >>= k) Q Always
any_then m k rest = Triple-bind (λ _. Always) m k (always m) rest

abbrev Placed : String → Json → World → Type 0
Placed h r w = w.files h "readiness" ≡ doc r

readiness-Placed :
    (env : Env) (h : String) (body : Json)
    → Triple Always (step_readiness_evaluate env h body) (Placed h) Always
unfolding step_readiness_evaluate
readiness-Placed env h body = any_then _ _ λ _. any_then _ _ λ _. any_then _ _ λ _.
    any_then _ _ λ _. any_then _ _ λ _. any_then _ _ λ _. any_then _ _ λ snapshots.
      any_then _ _ λ result.
        Triple-bind (λ _. Placed h result) _ _
          (Triple-write env h (λ f. Unit) (λ f. f "readiness" ≡ doc result) "readiness" result
            (λ f _. refl))
          λ _. Triple-pure result λ w p. p

pure-eq-ok :
    {A : Type 0} (a b : A) (s t : World) → pure {E = Error} a s ≡ (ok b, t) → (a ≡ b) × (s ≡ t)
unfolding pure
pure-eq-ok a b s t h = (cc, cc)

readable-eq-ok :
    {A : Type 0} (r : Result Fault A) (a : A) (s t : World)
    → readable r s ≡ (ok a, t)
    → (r ≡ ok a) × (s ≡ t)
unfolding readable raise
readable-eq-ok (ok x) a s t h = let (same, at_same) = pure-eq-ok x a s t h in (ap ok same, at_same)
readable-eq-ok (err e) a s t h = (cc, cc)

module _ (env : Env) (h : String) (host : Json) (inputs : Inputs) where
  -- A step of a plan that ends well: it returned a result that let the chain go on.
  pub record Passed (step : Step) (w : World) (result : Json) (w1 : World) : Type 0 where
    pub ran : run_step env h host inputs step w ≡ (ok result, w1)
    pub fine : chain_ok step result ≡ ok true

  pub good_report : Step → Json → StepReport
  good_report step result = record { step = step; status = step_status step result; is_ok = true }

  report_of : Step → Json → Bool → StepReport
  report_of step result b = record { step = step; status = step_status step result; is_ok = b }

  -- What the loop does with a result.
  take_result : Step → List Step → List StepReport → Json → Bool → Action ChainResult
  unfolding report_of
  take_result step steps reports result b =
      if b
      then run_plan env h host inputs steps (reports ++ (report_of step result b ∷ []))
      else pure (stopped step result (reports ++ (report_of step result b ∷ [])))

  after_result-ready :
      (step : Step) (steps : List Step) (reports : List StepReport) (result : Json) (b : Bool)
      (w w' : World) (r : ChainResult)
      → take_result step steps reports result b w ≡ (ok r, w')
      → r.status ≡ "ready_for_approval"
      → (b ≡ true)
        × (run_plan env h host inputs steps (reports ++ (good_report step result ∷ [])) w
            ≡ (ok r, w'))
  unfolding take_result good_report stopped
  after_result-ready step steps reports result true w w' r e ready = (refl, e)
  after_result-ready step steps reports result false w w' r e ready =
      let (same, _) = pure-eq-ok _ r w w' e in
      let blocked : "blocked" ≡ r.status = ap (λ (x : ChainResult). x.status) same in
      absurd (no_truth ((eq_iff "blocked" "ready_for_approval").1 (blocked ∙ ready)))

  run_plan-nil :
      (reports : List StepReport) (w w' : World) (r : ChainResult)
      → run_plan env h host inputs [] reports w ≡ (ok r, w')
      → finished env h host reports w ≡ (ok r, w')
  unfolding run_plan
  run_plan-nil reports w w' r e = e

  run_plan-cons :
      (step : Step) (steps : List Step) (reports : List StepReport) (w w' : World) (r : ChainResult)
      → run_plan env h host inputs (step ∷ steps) reports w ≡ (ok r, w')
      → r.status ≡ "ready_for_approval"
      → (result : Json) × (w1 : World) × Passed step w result w1
        × (run_plan env h host inputs steps (reports ++ (good_report step result ∷ [])) w1
            ≡ (ok r, w'))
  unfolding run_plan take_result
  run_plan-cons step steps reports w w' r e ready =
      let (result, w1, e1, h1) = >>=-eq-ok (run_step env h host inputs step) _ w e in
      let (b, w2, e2, h2) =
        >>=-eq-ok (readable (chain_ok step result)) (take_result step steps reports result) w1 h1 in
      let (fine, same) = readable-eq-ok (chain_ok step result) b w1 w2 e2 in
      let (good, later) = after_result-ready step steps reports result b w2 w' r h2 ready in
      (result, w1, record { ran = e1; fine = fine ∙ ap ok good }, rw same later)

  -- Steps that were run one after the other, each from what the one before it left, each with a
  -- result that lets the chain go on; `reports` are theirs.
  pub data Ran : List Step → World → List StepReport → World → Type 0 where
    nothing : {w w' : World} → w ≡ w' → Ran [] w [] w'
    step_by :
        {step : Step} {steps : List Step} {w w1 w' : World} {result : Json}
        {reports : List StepReport}
        → Passed step w result w1
        → Ran steps w1 reports w'
        → Ran (step ∷ steps) w (good_report step result ∷ reports) w'

  finished-eq :
      (reports : List StepReport) (w w' : World) (r : ChainResult)
      → finished env h host reports w ≡ (ok r, w')
      → (r.steps ≡ reports) × (r.stopped_at ≡ none)
  unfolding finished
  finished-eq reports w w' r e =
      let (j, w1, e1, h1) = >>=-eq-ok (read_evidence env.evidence h "readiness") _ w e in
      let (same, _) = pure-eq-ok _ r w1 w' h1 in
      (
        sym (ap (λ (x : ChainResult). x.steps) same),
        sym (ap (λ (x : ChainResult). x.stopped_at) same),
      )

  finished-files :
      (reports : List StepReport) (w w' : World) (r : ChainResult)
      → finished env h host reports w ≡ (ok r, w')
      → w'.files ≡ w.files
  unfolding finished
  finished-files reports w w' r e =
      ap (λ (x : Result Error ChainResult × World). x.1.files) (sym e)
      ∙ (finished-Quiet env h host reports).same w

  -- What `ready_for_approval` stands on.
  pub record Approved (w w' : World) (r : ChainResult) : Type 0 where
    pub last_world : World
    pub ran : Ran step_order w r.steps last_world
    pub not_stopped : r.stopped_at ≡ none
    pub document : Json
    pub placed : w'.files h "readiness" ≡ doc document
    pub ready : chain_ok readiness_evaluate document ≡ ok true

  run_plan-Ran :
      (steps : List Step) (reports : List StepReport) (w w' : World) (r : ChainResult)
      → run_plan env h host inputs steps reports w ≡ (ok r, w')
      → r.status ≡ "ready_for_approval"
      → (made : List StepReport) × (w1 : World) × Ran steps w made w1
        × (finished env h host (reports ++ made) w1 ≡ (ok r, w'))
  run_plan-Ran [] reports w w' r e ready =
      ([], w, nothing refl, rw append-nil (run_plan-nil reports w w' r e))
  run_plan-Ran (step ∷ steps) reports w w' r e ready =
      let (result, w1, passed, e1) = run_plan-cons step steps reports w w' r e ready in
      let (made, w2, ran, e2) =
        run_plan-Ran steps (reports ++ (good_report step result ∷ [])) w1 w' r e1 ready in
      (
        good_report step result ∷ made,
        w2,
        step_by passed ran,
        subst (λ xs. finished env h host xs w2 ≡ (ok r, w'))
            (append_assoc reports (good_report step result ∷ []) made) e2,
      )

  -- The document that the last step wrote.
  record Last (w : World) : Type 0 where
    document : Json
    written : w.files h "readiness" ≡ doc document
    fine : chain_ok readiness_evaluate document ≡ ok true

  Ran-Last :
      (steps : List Step) (w w' : World) (made : List StepReport)
      → Ran (steps ++ (readiness_evaluate ∷ [])) w made w'
      → Last w'
  unfolding run_step
  Ran-Last [] w w' made (step_by {w1} {result} p (nothing e)) = record {
    document = result;
    written =
        subst (Placed h result) e (Triple-ok (Placed h) _ w (readiness-Placed env h _) tt p.ran);
    fine = p.fine;
  }
  Ran-Last (s ∷ steps) w w' made (step_by p rest) = Ran-Last steps _ w' _ rest

  run_plan-Approved :
      (w w' : World) (r : ChainResult)
      → run_plan env h host inputs step_order [] w ≡ (ok r, w')
      → r.status ≡ "ready_for_approval"
      → Approved w w' r
  run_plan-Approved w w' r e ready =
      let (made, w1, ran, e1) = run_plan-Ran step_order [] w w' r e ready in
      let (steps, stop) = finished-eq made w1 w' r e1 in
      let last = Ran-Last before_last w w1 made ran in
      record {
        last_world = w1;
        ran = subst (λ reports. Ran step_order w reports w1) (sym steps) ran;
        not_stopped = stop;
        document = last.document;
        placed =
            ap (λ (fs : String → String → File). fs h "readiness") (finished-files made w1 w' r e1)
            ∙ last.written;
        ready = last.fine;
      }

Quiet-files :
    {A : Type 0} (m : Action A) (w : World) (a : A) (w' : World)
    → Quiet m
    → m w ≡ (ok a, w')
    → w'.files ≡ w.files
Quiet-files {A} m w a w' q e = ap (λ (x : Result Error A × World). x.1.files) (sym e) ∙ q.same w

module _ (env : Env) (h : String) (host : Json) where
  -- A chain that ends with `ready_for_approval` ran its seven steps in their order, the first from
  -- the evidence that the chain found and each other from what the one before it left, each with a
  -- result that lets the chain go on; it was stopped nowhere, and it leaves as the readiness document
  -- of the host the one that the last step wrote, whose status is `ready_for_approval`.
  pub step_readiness_chain-Approved :
      (body : Json) (w w' : World) (r : ChainResult)
      → step_readiness_chain env h host body w ≡ (ok r, w')
      → r.status ≡ "ready_for_approval"
      → (inputs : Inputs) × (start : World) × (start.files ≡ w.files)
        × Approved env h host inputs start w' r
  unfolding step_readiness_chain
  step_readiness_chain-Approved body w w' r e ready =
      let (dir, w1, e1, h1) = >>=-eq-ok (known_dir env h host body) _ w e in
      let (procedure, w2, e2, h2) = >>=-eq-ok (known_document env h host _ _ _) _ w1 h1 in
      let (policy, w3, e3, h3) = >>=-eq-ok (known_document env h host _ _ _) _ w2 h2 in
      let f1 = Quiet-files _ w dir w1 (known_dir-Quiet env h host body) e1 in
      let f2 = Quiet-files _ w1 procedure w2 (known_document-Quiet env h host _ _ _) e2 in
      let f3 = Quiet-files _ w2 policy w3 (known_document-Quiet env h host _ _ _) e3 in
      (_, w3, f3 ∙ f2 ∙ f1, run_plan-Approved env h host _ w3 w' r h3 ready)
