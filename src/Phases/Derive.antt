-- ===== src/Phases/Derive.antt =====
-- The phases of a snapshot, and their rollup.
use oracle_patching.Prelude.{
  String, Bool, ◌||◌, List, [], ◌∷◌, map, ◌==◌, string_eq, if◌then◌else◌, any, all,
}
use oracle_patching.Exec.{Result, ok}
use oracle_patching.Json.{Json, is_dict}
use oracle_patching.Phases.Values.{Fault, ◌>>=◌}
use oracle_patching.Phases.Defs.{Definition, Phase, phase, phase_defs}
use oracle_patching.Phases.Host.{host_identity, oracle_homes, patch_inventory}
use oracle_patching.Phases.Cluster.{cluster, databases}

not_run : Definition → Phase
not_run d =
    phase d "unavailable" "No live discovery snapshot yet."
      "Run discovery over SSH to collect this phase."

-- `[evaluate(snapshot) for evaluate in _EVALUATORS]`
unfoldable pub evaluate : (show : Json → String) → Json → Result Fault (List Phase)
unfolding host_identity oracle_homes cluster databases patch_inventory
evaluate show snapshot = do
  a ← host_identity show snapshot
  b ← oracle_homes show snapshot
  c ← cluster show snapshot
  d ← databases show snapshot
  e ← patch_inventory show snapshot
  ok (a ∷ b ∷ c ∷ d ∷ e ∷ [])

-- `derive_discovery_phases`; `None` is `null`.
unfoldable pub derive_discovery_phases : (show : Json → String) → Json → Result Fault (List Phase)
unfolding not_run evaluate
derive_discovery_phases show snapshot =
    if is_dict snapshot then evaluate show snapshot else ok (map not_run phase_defs)

-- `status in {p.get("status") for p in phases}`
unfoldable pub any_has_status : String → List Phase → Bool
any_has_status status = any λ p. p.status == status

unfoldable pub discovery_phases_rollup : List Phase → String
unfolding any_has_status
discovery_phases_rollup [] = "unavailable"
discovery_phases_rollup (p ∷ ps) =
    if any_has_status "fail" (p ∷ ps)
    then "fail"
    else if any_has_status "unavailable" (p ∷ ps)
    then "partial"
    else if any_has_status "partial" (p ∷ ps)
    then "partial"
    else if all (λ q. q.status == "pass" || q.status == "not_applicable") (p ∷ ps)
    then "pass"
    else "partial"
