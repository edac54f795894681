-- ===== src/Phases/Cluster.antt =====
-- The phases of the cluster and of the databases.
use oracle_patching.Prelude.{
  ℕ, suc, String, ◌<>◌, Bool, ◌&&◌, ◌||◌, not, List, [], ◌∷◌, map, ◌==◌, ◌!=◌, nat_eq, string_eq,
  if◌then◌else◌, length, take, is_nil,
}
use oracle_patching.Prelude.Text.Decimal.{decimal}
use oracle_patching.Exec.{Result, ok}
use oracle_patching.Json.{Json, get, truthy}
use oracle_patching.Phases.Values.{
  Fault, ◌>>=◌, dict_or_empty, list_or_empty, stripped, dict_or_fault, says, some_list, text,
  text_else, joined,
}
use oracle_patching.Phases.Defs.{Phase, phase, cluster_def, databases_def}

-- `sum` of the nodes whose status is active, each of which must be an object.
unfoldable pub active_nodes : (show : Json → String) → List Json → Result Fault ℕ
unfolding dict_or_fault says
active_nodes show [] = ok 0
active_nodes show (n ∷ ns) = dict_or_fault n >>= λ node.
    active_nodes show ns >>= λ k. ok (if says show "active" (get "status" node) then suc k else k)

module _ (show : Json → String) where
  -- The branches of `_cluster`, over its cluster, the runtime of that, the nodes and how many are
  -- active.
  unfoldable pub cluster_phase : Json → Json → List Json → ℕ → Phase
  unfolding says text text_else
  cluster_phase cluster runtime nodes active =
      let status = get "status" cluster in
      let grid_home = get "grid_home" cluster in
      let rt = get "status" runtime in
      let home_text = "grid_home=" <> text_else show "—" grid_home in
      if (says show "unavailable" status || says show "not_applicable" status)
        && is_nil nodes
        && not (truthy grid_home)
      then phase cluster_def "not_applicable"
          "No Clusterware detected — expected for single-instance hosts."
          "Required for RAC/Grid procedures; optional for single_instance. Not a database-down signal."
      else if not (says show "detected" status)
      then phase cluster_def "fail" ("Cluster status is " <> text_else show "missing" status <> ".")
          "RAC/Grid patching needs cluster.status=detected."
      else if is_nil nodes
      then phase cluster_def "partial" "Clusterware detected but no CRS nodes listed." home_text
      else if says show "healthy" rt
      then phase cluster_def "pass"
          ("Detected; "
            <> decimal (length nodes)
            <> " node(s), "
            <> decimal active
            <> " Active; runtime healthy; "
            <> home_text)
          ("upgrade_state="
            <> text_else show "—" (get "upgrade_state" runtime)
            <> "; active_version="
            <> text_else show "—" (get "active_version" runtime))
      else if says show "unavailable" rt || says show "unknown" rt || says show "" rt
      then phase cluster_def "partial"
          ("Detected; "
            <> decimal (length nodes)
            <> " node(s); runtime "
            <> text_else show "missing" rt
            <> ".")
          "Grid readiness prefers runtime.status=healthy and upgrade_state=NORMAL."
      else phase cluster_def "fail"
          ("Cluster detected but runtime status is " <> text show rt <> ".") home_text

  unfoldable pub cluster : Json → Result Fault Phase
  unfolding dict_or_empty list_or_empty active_nodes cluster_phase
  cluster snapshot = do
    found ← dict_or_empty (get "cluster" snapshot)
    runtime ← dict_or_empty (get "runtime" found)
    nodes ← list_or_empty (get "nodes" found)
    active ← active_nodes show nodes
    ok (cluster_phase found runtime nodes active)

-- What the loop of `_databases` finds of one database.
pub record Database : Type 0 where
  pub has_home : Bool
  pub is_complete_now : Bool
  pub down : Bool

unfoldable pub read_database : (show : Json → String) → Json → Result Fault Database
unfolding dict_or_fault stripped dict_or_empty says
read_database show v = do
  db ← dict_or_fault v
  oracle_home ← stripped (get "oracle_home" db)
  runtime ← dict_or_empty (get "runtime" db)
  ok (record {
    has_home = oracle_home != "";
    is_complete_now = says show "complete" (get "status" runtime);
    down = says show "unavailable" (get "status" runtime);
  })

unfoldable pub read_databases : (show : Json → String) → List Json → Result Fault (List Database)
unfolding read_database
read_databases show [] = ok []
read_databases show (v ∷ vs) =
    read_database show v >>= λ d. read_databases show vs >>= λ ds. ok (d ∷ ds)

unfoldable pub missing_home : List Database → ℕ
missing_home [] = 0
missing_home (d ∷ ds) = let n = missing_home ds in if d.has_home then n else suc n

unfoldable pub complete_count : List Database → ℕ
complete_count [] = 0
complete_count (d ∷ ds) = let n = complete_count ds in if d.is_complete_now then suc n else n

unfoldable pub down_count : List Database → ℕ
down_count [] = 0
down_count (d ∷ ds) =
    let n = down_count ds in if d.is_complete_now then n else if d.down then suc n else n

database_text : (show : Json → String) → Json → String
unfolding text
database_text show d = text show (get "db_unique_name" d) <> "@" <> text show (get "oracle_home" d)

-- The branches of `_databases` after its loop.
unfoldable pub databases_phase : (show : Json → String) → List Json → List Database → Phase
unfolding missing_home complete_count down_count joined database_text
databases_phase show dbs found =
    let n = length dbs in
    let complete = complete_count found in
    let down = down_count found in
    if missing_home found != 0
    then phase databases_def "fail"
        (decimal n <> " database(s); " <> decimal (missing_home found) <> " missing oracle_home.")
        ""
    else if complete == n
    then phase databases_def "pass" (decimal n <> " database(s); runtime complete on all.")
        (joined "; " (map (database_text show) (take 4 dbs)))
    else if complete != 0 || down != 0
    then phase databases_def "partial"
        (decimal n
          <> " database(s); runtime complete="
          <> decimal complete
          <> ", unavailable="
          <> decimal down
          <> ".")
        "Readiness recovery/DB gates need runtime.status=complete."
    else phase databases_def "partial"
        (decimal n <> " database(s) registered; runtime evidence incomplete.") ""

-- The branches without databases.
unfoldable pub no_databases : Bool → Phase
no_databases detected =
    if detected
    then phase databases_def "not_applicable"
        "No databases registered — OK for Grid-only patching on this host."
        "Required for database-family procedures."
    else phase databases_def "fail" "No databases discovered on a non-cluster host."
        "Database-family readiness needs db_unique_name → oracle_home mapping."

unfoldable pub databases : (show : Json → String) → Json → Result Fault Phase
unfolding some_list dict_or_empty says read_databases databases_phase no_databases
databases show snapshot =
    let dbs = some_list (get "databases" snapshot) in
    let evaluated = read_databases show dbs >>= λ found. ok (databases_phase show dbs found) in
    dict_or_empty (get "cluster" snapshot) >>= λ cluster.
    if is_nil dbs
    then ok (no_databases (says show "detected" (get "status" cluster)))
    else evaluated
