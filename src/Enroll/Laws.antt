-- ===== src/Enroll/Laws.antt =====
-- What an enrolment and a revocation give the agent that they name, and leave the others.
use Prim.Native.String.{String}
use oracle_patching.Prelude.{
  ℕ, ◌≡◌, ◌≢◌, refl, ◌&&◌, true, false, Option, none, some, List, [], arith, eq_iff, ◌==◌,
  string_eq, if◌then◌else◌, Option-cases, inl, inr,
}
use oracle_patching.Prelude.Text.{strip, id_fullmatch, codes}
use oracle_patching.Prelude.Text.Strip.{strip_of_id_fullmatch}
use oracle_patching.Prelude.Dict
use oracle_patching.Exec.{ok}
use oracle_patching.Enroll.{
  Registry, Entry, Enrolled, View, file, validate_id, load, enroll, verify, revoke, new_entry,
}

validate_id-eq-ok :
    (v : String) (l : _) {a : String} → validate_id v l ≡ ok a → id_fullmatch 127 (codes a) ≡ true
unfolding validate_id
validate_id-eq-ok v l h = ground arith

module _ (sha256 : String → String) where
  -- An enrolment that returns: what it wrote.
  pub enroll-writes :
      (token : String) (now : ℕ) (node agent : String) (r s : Registry) {e : Enrolled}
      → enroll sha256 token now node agent r ≡ (ok e, s)
      → (agents : List (String × Entry)) × (load r ≡ ok agents)
        × (s ≡ file (Dict.put e.agent_id (new_entry sha256 e.node e.agent_id token now) agents))
        × (strip e.agent_id ≡ e.agent_id)
        × (e.agent_token ≡ token)
  unfolding enroll
  enroll-writes token now node agent Registry.link s h = absurd (ground arith)
  enroll-writes token now node agent Registry.missing s {e} h =
      ([], refl, ground arith, strip_of_id_fullmatch 127 e.agent_id (ground arith), ground arith)
  enroll-writes token now node agent Registry.unreadable s h = absurd (ground arith)
  enroll-writes token now node agent Registry.malformed s h = absurd (ground arith)
  enroll-writes token now node agent (file agents) s {e} h = (
    agents,
    refl,
    ground arith,
    strip_of_id_fullmatch 127 e.agent_id (ground arith),
    ground arith,
  )

  -- After an enrolment that returns, with a token whose digest is not empty: for a name and a
  -- token that are not empty, its agent is verified by exactly the tokens with that digest (and
  -- its own node, where one is asked for), and every other agent is verified as before.
  pub verify-enroll :
      (token : String) (now : ℕ) (node agent : String) (r s : Registry) {e : Enrolled}
      → enroll sha256 token now node agent r ≡ (ok e, s)
      → sha256 token ≢ ""
      → (j t : String) (asked : Option String) → j ≢ ""
      → t ≢ ""
      → verify sha256 s j t asked ≡ (
          if e.agent_id == strip j
          then (elim asked [ none ↦ true | some n ↦ e.node == n ]) && sha256 t == sha256 token
          else verify sha256 r j t asked)
  unfolding verify new_entry
  verify-enroll token now node agent r s {e} h digest j t asked hj ht =
      let (agents, loaded, written, _, _) = enroll-writes token now node agent r s h in
      rw (written, loaded)
        (rw Dict.get-put (ground (arith, eq_iff j "", eq_iff t "", eq_iff (sha256 token) "")))

pub revoke-writes :
    (now : ℕ) (agent : String) (r s : Registry) {v : View}
    → revoke now agent r ≡ (ok v, s)
    → (agents : List (String × Entry)) × (e : Entry) × (load r ≡ ok agents)
      × (Dict.get (strip agent) agents ≡ some e)
      × (s
          ≡ file
              (Dict.put (strip agent) (record e { revoked = true; revoked_at = some now }) agents))
unfolding revoke
revoke-writes now agent Registry.link s h = absurd (ground arith)
revoke-writes now agent Registry.missing s h =
    absurd (ground (arith, Dict.get-nil {V = Entry} (strip agent)))
revoke-writes now agent Registry.unreadable s h = absurd (ground arith)
revoke-writes now agent Registry.malformed s h = absurd (ground arith)
revoke-writes now agent (file agents) s h = elim (Option-cases (Dict.get (strip agent) agents)) [
  | inl absent ↦ absurd (ground arith)
  | inr (e, present) ↦ (agents, e, refl, present, ground arith)
]

-- A revocation that returns: no token verifies its agent any more, and every other agent is verified
-- as before.
pub verify-revoke :
    (sha256 : String → String) (now : ℕ) (agent : String) (r s : Registry) {v : View}
    → revoke now agent r ≡ (ok v, s)
    → (j t : String) (asked : Option String)
    → verify sha256 s j t asked
      ≡ (if strip agent == strip j then false else verify sha256 r j t asked)
unfolding verify
verify-revoke sha256 now agent r s h j t asked =
    let (agents, e, loaded, present, written) = revoke-writes now agent r s h in
    rw (written, loaded) (rw Dict.get-put (ground arith))
