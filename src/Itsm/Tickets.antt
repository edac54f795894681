-- ===== src/Itsm/Tickets.antt =====
-- Which tickets the gate lets through.
use Prim.Native.String.{String}
use mathlib.Core.List.{Memᴰ}
use oracle_patching.Prelude.{
  ◌≡◌, ◌≢◌, ◌↔◌, refl, ap, ◌∙◌, true, false, List, [], ◌∷◌, ◌++◌, arith, eq_iff, ◌==◌, string_eq,
  Bool-cases, inl, inr, mem-cases,
}
use oracle_patching.Prelude.Text.{strip}
use oracle_patching.Json.{Json}
use oracle_patching.Exec.{ok, and_then-eq-ok}
use oracle_patching.Itsm.{Registry, load_registry, ticket_of, is_approved, look_up, validate_ticket}

-- The first entry of the ticket is approved.
pub record Approved (show : Json → String) (wanted : String) (entries : List Json) : Type 0 where
  pub earlier : List Json
  pub entry : Json
  pub later : List Json
  pub split : entries ≡ earlier ++ (entry ∷ later)
  pub others : (e : Json) → Memᴰ e earlier → (ticket_of show e == wanted) ≡ false
  pub ticket : ticket_of show entry ≡ wanted
  pub approved : is_approved show entry ≡ true

module _ (show : Json → String) (wanted : String) where
  look_up-Approved :
      (entries : List Json) → look_up show wanted entries ≡ ok tt → Approved show wanted entries
  unfolding look_up
  look_up-Approved [] h = cc
  look_up-Approved (e ∷ es) h = elim (Bool-cases (ticket_of show e == wanted)) [
    | inl t ↦ record {
      earlier = [];
      entry = e;
      later = es;
      split = refl;
      others = λ x m. elim m [ ];
      ticket = (eq_iff _ _).0 t;
      approved = ground arith;
    }
    | inr f ↦
        let a = look_up-Approved es (rw f at h) in
        record {
          earlier = e ∷ a.earlier;
          entry = a.entry;
          later = a.later;
          split = ap (λ l. e ∷ l) a.split;
          others = λ x m. elim (mem-cases m) [ inl same ↦ rw same f | inr m' ↦ a.others x m' ];
          ticket = a.ticket;
          approved = a.approved;
        }
  ]

  Approved-look_up :
      (earlier : List Json) (entry : Json) (later : List Json)
      → ((e : Json) → Memᴰ e earlier → (ticket_of show e == wanted) ≡ false)
      → ticket_of show entry ≡ wanted
      → is_approved show entry ≡ true
      → look_up show wanted (earlier ++ (entry ∷ later)) ≡ ok tt
  unfolding look_up
  Approved-look_up [] entry later others t a = rw ((eq_iff _ _).1 t, a) refl
  Approved-look_up (e ∷ es) entry later others t a =
      rw (others e (Memᴰ.head refl))
        (Approved-look_up es entry later (λ x m. others x (Memᴰ.tail m)) t a)

-- A ticket is accepted exactly where it is not blank, the registry loads, and the first entry with
-- that ticket is approved.
pub validate_ticket_iff :
    (show : Json → String) (r : Registry) (ticket : String)
    → (validate_ticket show r ticket ≡ ok tt) ↔ (
        (strip ticket ≢ "")
        × (entries : List Json) × (load_registry r ≡ ok entries)
        × Approved show (strip ticket) entries)
unfolding validate_ticket
validate_ticket_iff show r ticket = (
  λ h. elim (Bool-cases (strip ticket == "")) [
    | inl t ↦ absurd (cc (rw t at h))
    | inr f ↦
        let (entries, loaded, found) =
          and_then-eq-ok (load_registry r) (look_up show (strip ticket)) (rw f at h) in
        (
          λ e. cc (f, (eq_iff _ _).1 e),
          entries,
          loaded,
          look_up-Approved show (strip ticket) entries found,
        )
  ],
  λ h. elim (Bool-cases (strip ticket == "")) [
    | inl t ↦ absurd (h.0 ((eq_iff _ _).0 t))
    | inr f ↦
        rw (f, h.2)
          (ap (look_up show (strip ticket)) h.3.split
            ∙ Approved-look_up show (strip ticket) h.3.earlier h.3.entry h.3.later h.3.others
                h.3.ticket h.3.approved)
  ],
)
