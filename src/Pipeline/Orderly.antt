-- ===== src/Pipeline/Orderly.antt =====
-- Every step of the chain keeps the evidence of its host in order.
use Prim.Native.String.{String}
use oracle_patching.Prelude.{◌<>◌, ◌≡◌, refl, Option, none, List, [], ◌∷◌, string_eq, any, all}
use oracle_patching.Exec.{pure, ◌>>=◌}
use oracle_patching.Exec.Triple.{Triple-bind, Triple-pure}
use oracle_patching.Json.{Json, get}
use oracle_patching.Remote.Quote.{Text}
use oracle_patching.World.{Action}
use oracle_patching.World.Quiet.{
  Triple-Quiet, Quiet-pure, Quiet-lift, Quiet-ensure, Quiet-over_ssh, Quiet-over_ssh_as,
}
use oracle_patching.Evidence.Store.{is_id, short_name, write_evidence}
use oracle_patching.Evidence.Snapshots.{node_snapshot_evidence_name}
use oracle_patching.Pipeline.Targets.{Env, SshNode}
use oracle_patching.Pipeline.Collect.{
  discover_node, discover_all, topology_bound, procedure_bound, step_discovery, step_reconcile,
  step_artifact_inspect, step_procedure_validate,
}
use oracle_patching.Pipeline.Reads.{
  run_tool-Quiet, readable-Quiet, sync_tools-Quiet, snapshot_cli_args-Quiet, absolute_dir-Quiet,
  loads-Quiet, some_payload-Quiet,
}
use oracle_patching.Pipeline.Layers.{
  Shelf, Has, Layered, Has-placed, Layered-placed, Removed, other_name, no_truth,
}
use oracle_patching.Pipeline.Writes.{On}
use oracle_patching.Pipeline.Rules.{
  Orderly, read_then, read_last, require_then, write_then, clear_then, placed-other, Removed-upper,
  kept_there, kept_back, cut,
}

abbrev pub same : (f : Shelf) → Layered f → Layered f
same f l = l

module _ (env : Env) (h : String) where
  pub done : {A : Type 0} (a : A) → Orderly env h Layered (pure a)
  done a = read_last env h same (pure a) (Quiet-pure a)

  -- A node's snapshot is a document that the order does not ask about.
  snapshot_then :
      {B : Type 0} (node : SshNode) (payload : Json) (k : String → Unit {0} → Action B)
      → ((n : String) (u : Unit {0}) → Orderly env h Layered (k n u))
      → Orderly env h Layered (
          node_snapshot_evidence_name env.evidence node.name >>= λ n.
          write_evidence env.evidence h n payload >>= k n)
  unfolding node_snapshot_evidence_name
  snapshot_then node payload k rest =
      Triple-bind (λ n w. On h Layered w × (n ≡ ("snapshot_" <> short_name node.name))) _ _
        (Triple-bind (λ _. On h Layered) _ _
          (Triple-Quiet (λ fs. Layered (fs h)) _ (Quiet-ensure _ _))
          (λ _. Triple-pure _ λ w p. (p, refl)))
        λ n. record { at = λ w q. (named n q.1).at w q.0 }
    where
      named :
          (n : String)
          → n ≡ ("snapshot_" <> short_name node.name)
          → Orderly env h Layered (write_evidence env.evidence h n payload >>= k n)
      named n e =
          write_then env h same Layered n payload (k n)
            (λ f l. rw e (
              placed-other ("snapshot_" <> short_name node.name) payload f
                (other_name "readiness" (short_name node.name) refl)
                (other_name "compatibility_reconciliation" (short_name node.name) refl)
                (other_name "compatibility" (short_name node.name) refl)
                (other_name "procedure" (short_name node.name) refl) l))
            (rest n)

  discover_node-Orderly :
      (host : Json) (root : Text) (node : SshNode)
      → Orderly env h Layered (discover_node env h host root node)
  unfolding discover_node
  discover_node-Orderly host root node = read_then env h same _ _ (Quiet-over_ssh_as _ _) λ payload.
      snapshot_then node payload _ λ n _.
        read_then env h same _ _ (readable-Quiet _)
          λ found. read_then env h same _ _ (readable-Quiet _) λ named. done _

  discover_all-Orderly :
      (host : Json) (root : Text) (nodes : List SshNode) (alias : String) (primary : Option Json)
      (index : List Json)
      → Orderly env h Layered (discover_all env h host root nodes alias primary index)
  unfolding discover_all
  discover_all-Orderly host root [] alias primary index = done _
  discover_all-Orderly host root (node ∷ nodes) alias primary index =
      Triple-bind (λ _. On h Layered) _ _ (discover_node-Orderly host root node)
        λ found. discover_all-Orderly host root nodes alias _ _

  -- The removals after a discovery.
  topology_cut : (f g : Shelf) → Layered f → Removed topology_bound f g → Layered g
  unfolding any
  topology_cut f g l r =
      Removed-upper f g l r refl refl (cut f g l r "compatibility" refl) (λ p.
        kept_there f g l r "artifact" refl (l.validated (kept_back f g l r "procedure" refl p)))

  pub step_discovery-Orderly : (host : Json) → Orderly env h Layered (step_discovery env h host)
  unfolding step_discovery all is_id
  step_discovery-Orderly host = read_then env h same _ _ (Quiet-lift _) λ nodes.
      read_then env h same _ _ (sync_tools-Quiet env host) λ _.
        read_then env h same _ _ (Quiet-lift _) λ root.
          Triple-bind (λ _. On h Layered) _ _ (discover_all-Orderly host root nodes _ none [])
            λ found. read_then env h same _ _ (some_payload-Quiet env _) λ payload.
              write_then env h same Layered "snapshot" payload _
                (λ f. placed-other "snapshot" payload f refl refl refl refl)
                λ _.
                  write_then env h same Layered "snapshot_nodes" _ _
                    (λ f. placed-other "snapshot_nodes" _ f refl refl refl refl)
                    λ _.
                      clear_then env h same Layered topology_bound _ refl topology_cut λ _. done _

  reconciled_cut :
      (f g : Shelf)
      → Layered f
      → Removed ("compatibility_reconciliation" ∷ "readiness" ∷ []) f g
      → Layered g
  unfolding any
  reconciled_cut f g l r =
      Removed-upper f g l r refl refl
        (λ c.
          let (s, a, p) = l.collected (kept_back f g l r "compatibility" refl c) in
          (
            kept_there f g l r "snapshot" refl s,
            kept_there f g l r "artifact" refl a,
            kept_there f g l r "procedure" refl p,
          ))
        (λ p.
          kept_there f g l r "artifact" refl (l.validated (kept_back f g l r "procedure" refl p)))

  pub step_reconcile-Orderly : Orderly env h Layered (step_reconcile env h)
  unfolding step_reconcile all is_id
  step_reconcile-Orderly = read_then env h same _ _ (snapshot_cli_args-Quiet env h _) λ args.
      read_then env h same _ _ (run_tool-Quiet env.local _ args) λ result.
        write_then env h same Layered "reconciliation" result _
          (λ f. placed-other "reconciliation" result f refl refl refl refl)
          λ _. clear_then env h same Layered _ _ refl reconciled_cut λ _. done _

  pub step_artifact_inspect-Orderly :
      (host body : Json) → Orderly env h Layered (step_artifact_inspect env h host body)
  unfolding step_artifact_inspect
  step_artifact_inspect-Orderly host body =
      read_then env h same _ _ (absolute_dir-Quiet env body _) λ dir.
        read_then env h same _ _ (sync_tools-Quiet env host) λ _.
          read_then env h same _ _ (Quiet-lift _) λ root.
            read_then env h same _ _ (Quiet-ensure _ _) λ _.
              read_then env h same _ _ (Quiet-over_ssh _) λ stdout.
                read_then env h same _ _ (loads-Quiet env stdout) λ result.
                  write_then env h same Layered "artifact" result _
                    (λ f. placed-other "artifact" result f refl refl refl refl) λ _. done _

  procedure_cut :
      (f g : Shelf)
      → Layered f × Has f "artifact"
      → Removed procedure_bound f g
      → Layered g × Has g "artifact"
  unfolding any
  procedure_cut f g (l, a) r = (
    Removed-upper f g l r refl refl (cut f g l r "compatibility" refl)
        (cut f g l r "procedure" refl),
    kept_there f g l r "artifact" refl a,
  )

  pub step_procedure_validate-Orderly :
      (body : Json) → Orderly env h Layered (step_procedure_validate env h body)
  unfolding step_procedure_validate all is_id
  step_procedure_validate-Orderly body =
      let first = λ (f : Shelf) (p : Layered f × Has f "artifact"). p.0 in
      read_then env h same _ _ (Quiet-ensure _ _) λ _. require_then env h same "artifact" _ _ _ λ _.
        write_then env h first (λ f. Layered f × Has f "artifact") "procedure_input" _ _
          (λ f p. (
            placed-other "procedure_input" (get "procedure" body) f refl refl refl refl p.0,
            Has-placed "procedure_input" (get "procedure" body) f "artifact" p.1,
          ))
          λ _.
            clear_then env h first (λ f. Layered f × Has f "artifact") procedure_bound _ refl
              procedure_cut
              λ _. read_then env h first _ _ (run_tool-Quiet env.local _ _) λ result.
                write_then env h first Layered "procedure" result _
                  (λ f p.
                    Layered-placed "procedure" result f p.0 (λ q. absurd (no_truth q))
                      (λ q. absurd (no_truth q)) (λ q. absurd (no_truth q)) (λ _. p.1))
                  λ _. done _
