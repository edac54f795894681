-- ===== src/Itsm.antt =====
-- The gate that asks for an approved change ticket: webapp/itsm.py.
pub mod Tickets
mod Scenarios
use oracle_patching.Prelude.{
  ℕ, String, Bool, true, false, not, ◌&&◌, Option, none, some, List, [], ◌∷◌, ◌==◌, string_eq,
  select, map, if◌then◌else◌,
}
use oracle_patching.Prelude.Text.{codes, strip, lower, codes_eq, is_on}
use oracle_patching.Json
use oracle_patching.Json.{Json}
use oracle_patching.Exec.{Result, ok, err, and_then}

pub data ItsmError : Type 0 where
  registry_missing registry_unreadable registry_malformed : ItsmError
  ticket_required not_approved ticket_not_found : ItsmError

-- What stands at `tickets_path()`: no regular file, or a symbolic link; a file that is no JSON; a JSON
-- value.
pub data Registry : Type 0 where
  missing unreadable : Registry
  parsed : Json → Registry

unfoldable pub itsm_enabled : (required : String) → Bool
unfolding is_on
itsm_enabled required = is_on required

unfoldable pub tickets_of : Json → Result ItsmError (List Json)
unfolding Json.elements Json.is_dict select
tickets_of (Json.arr vs) = ok (select Json.is_dict (Json.elements vs))
tickets_of v = err registry_malformed

-- `_load_registry`
unfoldable pub load_registry : Registry → Result ItsmError (List Json)
unfolding Json.get tickets_of
load_registry missing = err registry_missing
load_registry unreadable = err registry_unreadable
load_registry (parsed v) = tickets_of (Json.get "tickets" v)

-- A row of `list_tickets`.
pub record Ticket : Type 0 where
  pub ticket : String
  pub state : String
  pub window_start : Json
  pub window_end : Json

-- `show` is `str` on a value that is no text.
module _ (show : Json → String) where
  -- `str(entry.get("ticket") or "").strip()`
  unfoldable pub ticket_of : Json → String
  unfolding Json.get Json.text_or strip
  ticket_of entry = strip (Json.text_or show "" (Json.get "ticket" entry))

  unfoldable pub is_approved : Json → Bool
  unfolding Json.get Json.text_or strip codes lower codes_eq
  is_approved entry =
      codes_eq (lower (codes (strip (Json.text_or show "" (Json.get "state" entry)))))
        (codes "approved")

  unfoldable pub row : Json → Ticket
  unfolding Json.get Json.text_or
  row entry = record {
    ticket = Json.text_or show "" (Json.get "ticket" entry);
    state = Json.text_or show "" (Json.get "state" entry);
    window_start = Json.get "window_start" entry;
    window_end = Json.get "window_end" entry;
  }

  unfoldable pub list_tickets : Registry → List Ticket
  unfolding load_registry ticket_of row select
  list_tickets r = elim (load_registry r) [
    | err e ↦ []
    | ok entries ↦ map row (select (λ entry. if ticket_of entry == "" then false else true) entries)
  ]

  -- The loop of `validate_ticket`: the first entry of the ticket decides.
  unfoldable pub look_up : String → List Json → Result ItsmError (Unit {0})
  unfolding ticket_of is_approved
  look_up wanted [] = err ticket_not_found
  look_up wanted (entry ∷ entries) =
      let rest = look_up wanted entries in
      if ticket_of entry == wanted
      then (if is_approved entry then ok tt else err not_approved)
      else rest

  unfoldable pub validate_ticket : Registry → String → Result ItsmError (Unit {0})
  unfolding strip load_registry look_up
  validate_ticket r ticket =
      if strip ticket == ""
      then err ticket_required
      else and_then (load_registry r) (look_up (strip ticket))
