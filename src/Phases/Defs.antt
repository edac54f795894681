-- ===== src/Phases/Defs.antt =====
-- The phases' definitions and the record of an evaluated phase.
use oracle_patching.Prelude.{String, List, [], ◌∷◌}

pub record Definition : Type 0 where
  pub id : String
  pub letter : String
  pub label : String
  pub required : String
  pub why : String
  pub unblocks : String

abbrev pub host_identity_def : Definition
host_identity_def = record {
  id = "host_identity";
  letter = "A";
  label = "Host identity & OS";
  required = "always";
  why = "Proves SSH reached the host and records hostname/OS/kernel for estate identity.";
  unblocks = "Estate cards; snapshot freshness binding";
}

abbrev pub oracle_homes_def : Definition
oracle_homes_def = record {
  id = "oracle_homes";
  letter = "B";
  label = "Oracle homes & OPatch";
  required = "always";
  why = "Locates Grid/DB homes, owners, versions, and OPatch tooling used for apply/prereqs.";
  unblocks = "Target-home selection; compatibility collector owner/path";
}

abbrev pub cluster_def : Definition
cluster_def = record {
  id = "cluster";
  letter = "C";
  label = "Cluster / RAC / CRS";
  required = "rac_or_grid";
  why = "CRS membership, Grid home, and runtime state for rolling/RAC/Grid patching.";
  unblocks = "Multi-node reconcile; Grid readiness gates";
}

abbrev pub databases_def : Definition
databases_def = record {
  id = "databases";
  letter = "D";
  label = "Databases & instances";
  required = "database_family";
  why = "DB unique names, home mapping, and runtime health used by DB-family readiness.";
  unblocks = "DB target selection; recovery/runtime gates";
}

abbrev pub patch_inventory_def : Definition
patch_inventory_def = record {
  id = "patch_inventory";
  letter = "E";
  label = "Patch inventory & platform";
  required = "always";
  why = "OPatch XML platform ID/name/digest and installed patches — required before reconcile.";
  unblocks = "Reconcile; OPatch compatibility; readiness platform binding";
}

abbrev pub phase_defs : List Definition
phase_defs =
    host_identity_def ∷ oracle_homes_def ∷ cluster_def ∷ databases_def ∷ patch_inventory_def ∷ []

pub record Phase : Type 0 where
  pub definition : Definition
  pub status : String
  pub summary : String
  pub detail : String

-- `_phase`; a phase's record has the fields of its definition too.
abbrev pub phase : Definition → String → String → String → Phase
phase definition status summary detail = record {
  definition = definition;
  status = status;
  summary = summary;
  detail = detail;
}
