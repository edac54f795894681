-- ===== src/Evidence/Snapshots.antt =====
-- The snapshots of a host's nodes: `node_snapshot_evidence_name` and `list_snapshot_paths`. A path is
-- given by its evidence name.
use oracle_patching.Prelude.{
  String, ◌<>◌, not, ◌||◌, Option, none, some, List, [], ◌∷◌, if◌then◌else◌,
}
use oracle_patching.Exec.{pure, ◌>>=◌, ◌>>◌}
use oracle_patching.Json.{Json, get, truthy, is_dict}
use oracle_patching.Phases.Values.{text, some_list}
use oracle_patching.World.{Action}
use oracle_patching.Evidence.Store.{
  Env, validate_evidence_name, has_evidence, read_evidence, short_name,
}

module _ (env : Env) where
  unfoldable pub node_snapshot_evidence_name : String → Action String
  unfolding validate_evidence_name short_name
  node_snapshot_evidence_name node_name =
      validate_evidence_name env (short_name node_name)
      >> pure ("snapshot_" <> short_name node_name)

  -- A path, where its file is there.
  unfoldable pub kept_path : String → String → Action (Option String)
  kept_path host_id name = do
    there ← has_evidence env host_id name
    pure (if there then some name else none)

  -- The evidence name of an entry of the index, where it has one.
  unfoldable pub entry_name : (show : Json → String) → Json → Action (Option String)
  unfolding node_snapshot_evidence_name truthy text
  entry_name show entry =
      let name = if truthy (get "name" entry) then get "name" entry else get "evidence" entry in
      let derived = node_snapshot_evidence_name (text show name) >>= λ n. pure (some n) in
      if not (is_dict entry) || not (truthy name)
      then pure none
      else if truthy (get "evidence" entry)
      then pure (some (text show (get "evidence" entry)))
      else derived

  unfoldable pub kept_entry : String → Option String → Action (Option String)
  unfolding kept_path
  kept_entry host_id none = pure none
  kept_entry host_id (some name) = kept_path host_id name

  unfoldable pub indexed : (show : Json → String) → String → List Json → Action (List String)
  unfolding entry_name kept_entry
  indexed show host_id [] = pure []
  indexed show host_id (entry ∷ entries) = entry_name show entry >>= λ name.
      kept_entry host_id name >>= λ found. indexed show host_id entries >>= λ rest.
      pure (elim found [ none ↦ rest | some path ↦ path ∷ rest ])

  -- The list under `nodes` of the index, where that is an object.
  unfoldable pub index_nodes : Option Json → List Json
  unfolding some_list
  index_nodes none = []
  index_nodes (some index) = some_list (get "nodes" index)

  unfoldable pub or_legacy : String → List String → Action (List String)
  unfolding has_evidence
  or_legacy host_id (p ∷ ps) = pure (p ∷ ps)
  or_legacy host_id [] = do
    there ← has_evidence env host_id "snapshot"
    pure (if there then "snapshot" ∷ [] else [])

  unfoldable pub list_snapshot_paths : (show : Json → String) → String → Action (List String)
  unfolding index_nodes indexed or_legacy
  list_snapshot_paths show host_id = do
    index ← read_evidence env host_id "snapshot_nodes"
    paths ← indexed show host_id (index_nodes index)
    or_legacy host_id paths
