-- ===== src/Itsm/Scenarios.antt =====
-- A registry with a ticket that is twice in it, and the theorem on it.
use Prim.Native.String.{String}
use oracle_patching.Prelude.{◌≡◌, ◌≢◌, ◌↔◌, refl, List}
use oracle_patching.Prelude.Text.{codes, strip}
use oracle_patching.Json
use oracle_patching.Json.{Json}
use oracle_patching.Exec.{ok, err}
use oracle_patching.Itsm.{Registry, parsed, not_approved, load_registry, validate_ticket}
use oracle_patching.Itsm.Tickets.{Approved, validate_ticket_iff}

abbrev ticket : (name state : String) → Json
ticket name state =
    Json.obj (Json.field "ticket" (Json.str name) (Json.field "state" (Json.str state) Json.end))

abbrev registry : Registry
registry = parsed (
    Json.obj (
      Json.field "tickets"
        (Json.arr (
          Json.cons (ticket "CHG1" " Approved ") (
            Json.cons (Json.str "note")
              (Json.cons (ticket "CHG2" "draft") (Json.cons (ticket "CHG2" "approved") Json.nil)))))
        Json.end))

abbrev show : Json → String
show v = "?"

approved_passes : validate_ticket show registry " CHG1" ≡ ok tt
unfolding validate_ticket strip codes Json.elements
approved_passes = refl

-- The first entry of a ticket decides, also where a later one is approved.
first_entry_decides : validate_ticket show registry "CHG2" ≡ err not_approved
unfolding validate_ticket strip codes Json.elements
first_entry_decides = refl

validate_ticket_iff_example : (validate_ticket show registry " CHG1" ≡ ok tt) ↔ (
    (strip " CHG1" ≢ "")
    × (entries : List Json) × (load_registry registry ≡ ok entries)
    × Approved show (strip " CHG1") entries)
validate_ticket_iff_example = validate_ticket_iff show registry " CHG1"
