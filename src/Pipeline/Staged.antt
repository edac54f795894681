-- ===== src/Pipeline/Staged.antt =====
-- What the staging of media leaves: the evidence files as they were where it raises, and without those
-- that describe the media where it returns.
use Prim.Native.String.{String}
use mathlib.Core.List.{append_assoc, append-nil}
use oracle_patching.Prelude.{
  ◌≡◌, refl, sym, ◌∙◌, ap, Bool, true, false, not, ◌&&◌, string_eq, nat_eq, Option, none, some,
  List, [], ◌∷◌, ◌++◌, map, any, all, subst, arith,
}
use oracle_patching.Prelude.Text.{codes, starts_with}
use oracle_patching.Exec.{Result, ok, pure}
use oracle_patching.Exec.Triple.{
  Triple-given, Triple, Meets, Triple-bind, Triple-pure, Triple-raise, Triple-lift-then,
  Triple-weaken, Triple-if,
}
use oracle_patching.Json.{Json, get, truthy}
use oracle_patching.World.{World, Error}
use oracle_patching.World.Quiet.{quiet_rules, Quiet-over_ssh}
use oracle_patching.Pipeline.Targets.{SshNode, configured_nodes}
use oracle_patching.Pipeline.Reads.{readable-Quiet, sync_tools-Quiet}
use oracle_patching.Pipeline.Layers.{Shelf, Removed}
use oracle_patching.Pipeline.Writes.{On, Triple-clear_all}
use oracle_patching.Pipeline.Owner.{is_owner}
use oracle_patching.Pipeline.Media.{is_complete_media}
use oracle_patching.Evidence.Store.{is_id}
use oracle_patching.Pipeline.StageNodes.{
  Env, StageRequest, NodeResult, already_complete, staged, artifact_bound, stage_on, stage_node,
  stage_nodes,
}
use oracle_patching.Pipeline.Stage.{
  Staging, media_dir, some_owner, media_owner, prepare, step_stage_artifact,
}
use oracle_patching.Pipeline.Finds.{Still, Finds, quiet_then, finds_then, guard_then, returns}
use oracle_patching.Pipeline.StageReads.{
  stage_owner-Quiet, send_to-Quiet, payload_of-Quiet, media_source-Quiet, media_route-Quiet,
  source_ips-Quiet,
}

unfoldable pub node_of : NodeResult → SshNode
node_of (already_complete n bytes) = n
node_of (staged n transfer payload) = n

-- The media of the node were left as they were.
unfoldable pub is_kept : NodeResult → Bool
is_kept (already_complete n bytes) = true
is_kept (staged n transfer payload) = false

kept-refused : (a replace : Bool) → (a && not replace) ≡ true → replace ≡ true → true ≡ false
kept-refused a true h e = ground arith
kept-refused a false h e = cc

kept-none : (a b : Bool) → (a ≡ true → b ≡ false) → (a && b) ≡ false
kept-none true b h = h refl
kept-none false b h = refl

module _ (host_id : String) (f : Shelf) where
  module _ (env : Env) where
    media_dir-absolute :
        (body : Json)
        → Finds host_id f (media_dir env host_id body) (λ dir. starts_with (codes "/") dir ≡ true)
    unfolding media_dir
    media_dir-absolute body =
        quiet_then _ _ _ (readable-Quiet _)
          λ dir. guard_then _ _ _ _ λ absolute. returns _ _ absolute

    some_owner-is_owner :
        (o : Option String)
        → Finds host_id f (some_owner env host_id o) (λ owner. is_owner (codes owner) ≡ true)
    unfolding some_owner
    some_owner-is_owner none = Triple-raise _ λ w p. p
    some_owner-is_owner (some owner) =
        guard_then _ _ _ _ λ given. guard_then _ _ _ _ λ valid. returns _ _ valid

    media_owner-is_owner :
        (body : Json)
        → Finds host_id f (media_owner env host_id body) (λ owner. is_owner (codes owner) ≡ true)
    unfolding media_owner
    media_owner-is_owner body =
        quiet_then _ _ _ (readable-Quiet _)
          λ given. quiet_then _ _ _ (search (quiet_rules, stage_owner-Quiet)) some_owner-is_owner

    -- What a request has.
    abbrev Sound : Json → StageRequest → Type 0
    Sound body r =
        (starts_with (codes "/") r.artifact_dir ≡ true)
        × (is_owner (codes r.owner) ≡ true)
        × (r.replace ≡ truthy (get "replace" body))

    prepare-Sound :
        (host body : Json) → Finds host_id f (prepare env host_id host body) (Sound body)
    unfolding prepare
    prepare-Sound host body = finds_then _ _ _ _ (media_dir-absolute body) λ dir absolute.
        finds_then _ _ _ _ (media_owner-is_owner body) λ owner valid.
          quiet_then _ _ _ (media_source-Quiet env host_id dir body) λ source.
            quiet_then _ _ _ (media_route-Quiet env host_id body) λ route.
              quiet_then _ _ _ (sync_tools-Quiet env.base host) λ synced.
                quiet_then _ _ _ (readable-Quiet _) λ tool.
                  quiet_then _ _ _ (source_ips-Quiet env host_id source route)
                    λ ips. returns _ _ (absolute, valid, refl)

    module _ (r : StageRequest) where
      -- The entry of a node: under `replace` its media were staged.
      abbrev For : SshNode → NodeResult → Type 0
      For node x = (node_of x ≡ node) × (r.replace ≡ true → is_kept x ≡ false)

      stage_on-For :
          (node : SshNode) (results : List NodeResult)
          → Finds host_id f (stage_on env r node results) (For node)
      unfolding stage_on node_of is_kept
      stage_on-For node results = quiet_then _ _ _ (send_to-Quiet env r node r.source) λ sent.
          guard_then _ _ _ _ λ ended.
            quiet_then _ _ _ (payload_of-Quiet env r node _ _)
              λ payload. returns _ _ (refl, λ replace. refl)

      stage_node-For :
          (node : SshNode) (results : List NodeResult)
          → Finds host_id f (stage_node env r node results) (For node)
      unfolding stage_node node_of is_kept
      stage_node-For node results = quiet_then _ _ _ (Quiet-over_ssh _) λ current.
          Triple-if (is_complete_media current && not r.replace)
            (pure (already_complete node current.bytes)) _
            (λ complete. returns _ _ (refl, λ replace. kept-refused _ r.replace complete replace))
            (λ other. stage_on-For node results)

      -- The entries that a loop adds, one for each node.
      record Added (nodes : List SshNode) (before after : List NodeResult) : Type 0 where
        added : List NodeResult
        appended : after ≡ before ++ added
        for_nodes : map node_of added ≡ nodes
        fresh : r.replace ≡ true → any is_kept added ≡ false

      Added-cons :
          (node : SshNode) (nodes : List SshNode) (x : NodeResult) (before after : List NodeResult)
          → For node x
          → Added nodes (before ++ (x ∷ [])) after
          → Added (node ∷ nodes) before after
      unfolding any
      Added-cons node nodes x before after (same, fresh) a = record {
        added = x ∷ a.added;
        appended = a.appended ∙ append_assoc before (x ∷ []) a.added;
        for_nodes = cc;
        fresh = λ replace. rw (fresh replace) (a.fresh replace);
      }

      stage_nodes-Added :
          (nodes : List SshNode) (results : List NodeResult)
          → Finds host_id f (stage_nodes env r nodes results) (Added nodes results)
      unfolding stage_nodes any
      stage_nodes-Added [] results = returns _ _ (record {
        added = [];
        appended = sym (append-nil results);
        for_nodes = refl;
        fresh = λ replace. refl;
      })
      stage_nodes-Added (node ∷ nodes) results =
          finds_then _ _ _ _ (stage_node-For node results) λ x is_for.
            Triple-weaken _ (stage_nodes-Added nodes (results ++ (x ∷ []))) (λ w p. p)
              (λ xs w p. (Added-cons node nodes x results xs is_for p.0, p.1)) (λ w p. p)

-- What a staging that returned has done: the documents on the media are gone from the host's evidence
-- and no other is touched; every node has its entry, in order; the path and the owner are ones that the
-- staging tool can take.
pub record Staged (env : Env) (host_id : String) (host body : Json) (f : Shelf) (s : Staging)
    (g : Shelf) : Type 0 where
  pub cleared : Removed artifact_bound f g
  pub absolute : starts_with (codes "/") s.artifact_dir ≡ true
  pub owned : is_owner (codes s.owner) ≡ true
  pub nodes : configured_nodes env.base host ≡ ok (map node_of s.nodes)
  pub fresh : (truthy (get "replace" body) && any is_kept s.nodes) ≡ false

module _ (env : Env) (host_id : String) (host body : Json) where
  abbrev pub Outcome : Shelf → Result Error Staging × World → Type 0
  Outcome f = Meets (λ s. On host_id (Staged env host_id host body f s)) (Still host_id f)

  step-Triple :
      (f : Shelf)
      → Triple
          (Still host_id f)
          (step_stage_artifact env host_id host body)
          (λ s. On host_id (Staged env host_id host body f s))
          (Still host_id f)
  unfolding step_stage_artifact all is_id
  step-Triple f =
      Triple-bind (λ r w. Sound host_id f env body r × Still host_id f w) _ _
        (prepare-Sound host_id f env host body)
        λ r. Triple-given _ λ (absolute, owned, replace).
          Triple-lift-then _ _ (λ w p. p)
            λ nodes configured.
              Triple-bind (λ xs w. Added host_id f env r nodes [] xs × Still host_id f w) _ _
                (stage_nodes-Added host_id f env r nodes [])
                λ xs. Triple-given _ λ a.
                  Triple-bind (λ _. On host_id (λ g. Removed artifact_bound f g)) _ _
                    (Triple-clear_all env.base host_id (λ g. g ≡ f)
                      (λ g. Removed artifact_bound f g) artifact_bound refl
                      λ g g' e removed. subst (λ x. Removed artifact_bound x g') e removed)
                    λ _. Triple-pure _ λ w removed. record {
                      cleared = removed;
                      absolute = absolute;
                      owned = owned;
                      nodes = configured ∙ ap ok (sym (ap (map node_of) a.appended ∙ a.for_nodes));
                      fresh =
                          kept-none _ _
                            λ wanted. ap (any is_kept) a.appended ∙ a.fresh (replace ∙ wanted);
                    }

-- The staging of media either raises, and the host's evidence is as it was, or returns, and then
-- `Staged` holds of what it returned and of the evidence that it left. So where the media of an
-- earlier node were replaced and a later node fails, no evidence on the old media is cleared.
pub step_stage_artifact-Outcome :
    (env : Env) (host_id : String) (host body : Json) (w : World)
    → Outcome env host_id host body (w.files host_id) (step_stage_artifact env host_id host body w)
step_stage_artifact-Outcome env host_id host body w =
    (step-Triple env host_id host body (w.files host_id)).at w refl
