-- ===== src/Phases/Scenarios.antt =====
-- The phases of a healthy single-instance host, and their theorems there.
use oracle_patching.Prelude.{String, ◌≡◌, refl, true, false, List, [], ◌↔◌, is_nil, all, any}
use oracle_patching.Exec.{ok, err}
use oracle_patching.Json.{Json, Items, Fields, is_dict, get, is_str}
use oracle_patching.Phases.Defs.{Phase}
use oracle_patching.Phases.Derive.{derive_discovery_phases, discovery_phases_rollup}
use oracle_patching.Phases.Passed.{is_good}
use oracle_patching.Phases.Rollup.{rollup-pass_iff, Usable, derive-Usable}

abbrev show : Json → String
show v = "?"

abbrev one_field : String → Json → Json
one_field k v = Json.obj (Fields.field k v Fields.end)

abbrev platform : Json
platform = Json.obj (
    Fields.field "status" (Json.str "collected") (
      Fields.field "id" (Json.str "226") (
        Fields.field "name" (Json.str "Linux x86-64") (
          Fields.field "source" (Json.str "opatch_lsinventory_xml")
            (Fields.field "source_sha256" (Json.str "ab12") Fields.end)))))

abbrev home : Json
home = Json.obj (
    Fields.field "path" (Json.str "/u01/dbhome_1") (
      Fields.field "owner" (Json.str "oracle") (
        Fields.field "opatch_version" (Json.str "12.2.0.1.43")
          (Fields.field "platform" platform Fields.end))))

abbrev database : Json
database = Json.obj (
    Fields.field "db_unique_name" (Json.str "ORCL") (
      Fields.field "oracle_home" (Json.str "/u01/dbhome_1")
        (Fields.field "runtime" (one_field "status" (Json.str "complete")) Fields.end)))

abbrev host : Json
host = Json.obj (
    Fields.field "name" (Json.str "db1")
      (Fields.field "os" (Json.str "OL8") (Fields.field "kernel" (Json.str "5.15") Fields.end)))

abbrev snapshot : Json
snapshot = Json.obj (
    Fields.field "host" host (
      Fields.field "oracle_homes" (Json.arr (Items.cons home Items.nil)) (
        Fields.field "cluster" (one_field "status" (Json.str "unavailable"))
          (Fields.field "databases" (Json.arr (Items.cons database Items.nil)) Fields.end))))

found : List Phase
found = elim (derive_discovery_phases show snapshot) [ ok ps ↦ ps | err e ↦ [] ]

found_all : derive_discovery_phases show snapshot ≡ ok found
unfolding derive_discovery_phases get is_nil found
found_all = refl

found_pass : discovery_phases_rollup found ≡ "pass"
unfolding derive_discovery_phases discovery_phases_rollup found get is_nil any is_str all
found_pass = refl

rollup-pass_iff_example :
    (discovery_phases_rollup found ≡ "pass") ↔ ((is_nil found ≡ false) × (all is_good found ≡ true))
rollup-pass_iff_example = rollup-pass_iff found

derive-Usable_example : (is_dict snapshot ≡ true) × Usable show snapshot
derive-Usable_example = derive-Usable show snapshot found found_all found_pass
