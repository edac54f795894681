-- ===== src/Pipeline/Shown.antt =====
-- What an operator is shown is what the evidence files hold.
use Prim.Native.String.{String}
use oracle_patching.Prelude.{
  ◌≡◌, refl, sym, ◌∙◌, ap, inl, inr, Bool-cases, Option, List, [], ◌∷◌, ◌&&◌,
}
use oracle_patching.Exec.{ok}
use oracle_patching.Exec.Triple.{Meets, Triple-bind, Triple-lift, Triple-gets}
use oracle_patching.Json.{Json}
use oracle_patching.Phases.Defs.{Phase}
use oracle_patching.World.{World}
use oracle_patching.Evidence.Store.{json_of_file, read_evidence}
use oracle_patching.Pipeline.Targets.{Env}
use oracle_patching.Pipeline.Reads.{evidence_dir-Quiet, read_evidence-Quiet, readable-Quiet}
use oracle_patching.Pipeline.Layers.{Shelf}
use oracle_patching.Pipeline.Finds.{Still, Finds, quiet_then, finds_then, returns}
use oracle_patching.Pipeline.Chain.{
  Step, discovery, reconcile, artifact_inspect, procedure_validate, compatibility_collect,
  compatibility_reconcile, readiness_evaluate, step_order, is_null,
}
use oracle_patching.Pipeline.Overview.{
  evidence_name, Extra, StepEntry, is_there, entry_of, discovery_entry, entry_for, entries,
  pipeline_state,
}

module _ (env : Env) (host_id : String) (f : Shelf) where
  read_evidence-read :
      (n : String)
      → Finds host_id f (read_evidence env.evidence host_id n) (λ p. json_of_file (f n) ≡ ok p)
  unfolding read_evidence
  read_evidence-read n = quiet_then _ _ _ (evidence_dir-Quiet env.evidence host_id) λ _.
      Triple-bind (λ file w. (f n ≡ file) × Still host_id f w) _ _
        (Triple-gets _ λ w p. (ap (λ (g : Shelf). g n) (sym p), p))
        λ file. Triple-lift _ (λ a h w p. (ap json_of_file p.0 ∙ h, p.1)) λ w p. p.1

  -- An entry is about its step and shows the document that was read.
  abbrev pub Shows : Step → StepEntry → Type 0
  Shows step e =
      (e.step ≡ step)
      × (json_of_file (f (evidence_name step)) ≡ ok e.evidence)
      × (e.is_done ≡ is_there e.evidence)

  discovery_entry-Shows :
      (payload : Option Json) (phases : List Phase) (names : Option (List Json))
      → json_of_file (f "snapshot") ≡ ok payload
      → Shows discovery (discovery_entry payload phases names)
  unfolding discovery_entry entry_of
  discovery_entry-Shows payload phases names h =
      elim (Bool-cases
        (is_null (entry_of discovery payload Extra.plain).status && is_there payload)) [
          | inl b ↦ rw b (refl, h, refl)
          | inr b ↦ rw b (refl, h, refl)
        ]

  entry_for-Shows :
      (step : Step) (payload : Option Json)
      → json_of_file (f (evidence_name step)) ≡ ok payload
      → Finds host_id f (entry_for env host_id step payload) (Shows step)
  unfolding entry_for entry_of
  entry_for-Shows discovery payload h = quiet_then _ _ _ (readable-Quiet _) λ phases.
      quiet_then _ _ _ (read_evidence-Quiet env.evidence host_id _) λ index.
        quiet_then _ _ _ (readable-Quiet _)
          λ names. returns _ _ (discovery_entry-Shows payload phases names h)
  entry_for-Shows procedure_validate payload h =
      quiet_then _ _ _ (read_evidence-Quiet env.evidence host_id _)
        λ input. returns _ _ (refl, h, refl)
  entry_for-Shows reconcile payload h = returns _ _ (refl, h, refl)
  entry_for-Shows artifact_inspect payload h = returns _ _ (refl, h, refl)
  entry_for-Shows compatibility_collect payload h = returns _ _ (refl, h, refl)
  entry_for-Shows compatibility_reconcile payload h = returns _ _ (refl, h, refl)
  entry_for-Shows readiness_evaluate payload h = returns _ _ (refl, h, refl)

  -- One entry for each step, in order.
  pub data ShowsAll : List Step → List StepEntry → Type 0 where
    none_left : ShowsAll [] []
    one_more :
        {step : Step} {steps : List Step} {e : StepEntry} {es : List StepEntry}
        → Shows step e
        → ShowsAll steps es
        → ShowsAll (step ∷ steps) (e ∷ es)

  entries-ShowsAll :
      (steps : List Step) → Finds host_id f (entries env host_id steps) (ShowsAll steps)
  unfolding entries
  entries-ShowsAll [] = returns _ _ none_left
  entries-ShowsAll (step ∷ steps) =
      finds_then _ _ _ _ (read_evidence-read (evidence_name step)) λ payload h.
        finds_then _ _ _ _ (entry_for-Shows step payload h) λ e shows.
          finds_then _ _ _ _ (entries-ShowsAll steps) λ es later. returns _ _ (one_more shows later)

-- The view of a host's pipeline changes none of the host's evidence, and where it returns, it has one
-- entry for each step, in the order of the steps: the document that the step's evidence file holds, or
-- none, and done exactly where there is one.
pub pipeline_state-ShowsAll :
    (env : Env) (host_id : String) (w : World)
    → Meets
        (λ es w'.
          ShowsAll env host_id (w.files host_id) step_order es
          × (w'.files host_id ≡ w.files host_id))
        (λ w'. w'.files host_id ≡ w.files host_id)
        (pipeline_state env host_id w)
unfolding pipeline_state
pipeline_state-ShowsAll env host_id w =
    (entries-ShowsAll env host_id (w.files host_id) step_order).at w refl
