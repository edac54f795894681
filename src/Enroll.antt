-- ===== src/Enroll.antt =====
-- The registry of pull agents: webapp/agent_enroll.py. The state is the registry file; a token is
-- minted by `secrets.token_urlsafe` and its digest taken by `hashlib.sha256`, both arguments here.
pub mod Laws
mod Scenarios
use oracle_patching.Prelude.{
  ℕ, String, Bool, true, false, not, ◌&&◌, ◌||◌, Option, none, some, List, [], ◌∷◌, ◌==◌, ◌!=◌,
  string_eq, if◌then◌else◌,
}
use oracle_patching.Prelude.Text.{codes, strip, id_fullmatch}
use oracle_patching.Prelude.Dict
use oracle_patching.Exec.{
  Result, ok, err, Exec, pure, raise, lift, gets, modify, ensure, ◌>>=◌, ◌>>◌,
}

pub data Label : Type 0 where
  for_node for_agent_id : Label

-- The texts of `EnrollError`; `status` gives the HTTP status of each.
pub data EnrollError : Type 0 where
  invalid : Label → EnrollError
  registry_is_link registry_unreadable registry_malformed unknown_agent : EnrollError

unfoldable pub status : EnrollError → ℕ
status (invalid l) = 400
status registry_is_link = 500
status registry_unreadable = 500
status registry_malformed = 500
status unknown_agent = 404

pub record Entry : Type 0 where
  pub agent_id : String
  pub node : String
  pub token_sha256 : String
  pub enrolled_at : ℕ
  pub revoked : Bool
  pub revoked_at : Option ℕ

abbrev pub Agents : Type 0
Agents = List (String × Entry)

-- What stands at `registry_path()`.
pub data Registry : Type 0 where
  link missing unreadable malformed : Registry
  file : Agents → Registry

unfoldable pub validate_id : String → Label → Result EnrollError String
validate_id value label =
    let value = strip value in
    if id_fullmatch 127 (codes value) then ok value else err (invalid label)

unfoldable pub load : Registry → Result EnrollError Agents
load link = err registry_is_link
load missing = ok []
load unreadable = err registry_unreadable
load malformed = err registry_malformed
load (file agents) = ok agents

unfoldable pub save : Agents → Exec EnrollError Registry (Unit {0})
save agents link = (err registry_is_link, link)
save agents _ = (ok tt, file agents)

-- `_public_view`: without the digest.
pub record View : Type 0 where
  pub agent_id : String
  pub node : String
  pub enrolled_at : ℕ
  pub revoked : Bool
  pub revoked_at : Option ℕ

unfoldable pub public_view : Entry → View
public_view e = record {
  agent_id = e.agent_id;
  node = e.node;
  enrolled_at = e.enrolled_at;
  revoked = e.revoked;
  revoked_at = e.revoked_at;
}

pub record Enrolled : Type 0 where
  pub agent_id : String
  pub node : String
  pub agent_token : String
  pub enrolled_at : ℕ

unfoldable pub found : Option Entry → Exec EnrollError Registry Entry
unfolding ◌>>=◌
found none = raise unknown_agent
found (some e) = pure e

module _ (sha256 : String → String) where
  unfoldable pub new_entry : String → String → String → ℕ → Entry
  new_entry node agent_id token now = record {
    agent_id = agent_id;
    node = node;
    token_sha256 = sha256 token;
    enrolled_at = now;
    revoked = false;
    revoked_at = none;
  }

  unfoldable pub enroll :
      (token : String) (now : ℕ) (node agent_id : String) → Exec EnrollError Registry Enrolled
  unfolding ◌>>=◌ validate_id load save new_entry
  enroll token now node agent = do
    node ← lift (validate_id node for_node)
    agent ← lift (validate_id agent for_agent_id)
    agents ← (λ r. lift (load r) r)
    save (Dict.put agent (new_entry node agent token now) agents)
    pure (record { agent_id = agent; node = node; agent_token = token; enrolled_at = now })

  unfoldable pub check_entry : Entry → String → Option String → Bool
  check_entry e token node =
      not e.revoked
      && ((elim node [ none ↦ true | some n ↦ e.node == n ])
          && ((if e.token_sha256 == "" then false else true) && sha256 token == e.token_sha256))

  unfoldable pub verify : Registry → (agent_id agent_token : String) → Option String → Bool
  unfolding load check_entry
  verify r agent token node = if agent == "" || token == "" then false else elim (load r) [
    | err e ↦ false
    | ok agents ↦ elim (Dict.get (strip agent) agents) [
      | none ↦ false
      | some e ↦ check_entry e token node
    ]
  ]

unfoldable pub revoke : ℕ → String → Exec EnrollError Registry View
unfolding ◌>>=◌ validate_id load save found public_view
revoke now agent = do
  agent ← lift (validate_id agent for_agent_id)
  agents ← (λ r. lift (load r) r)
  entry ← found (Dict.get agent agents)
  let entry' = record entry { revoked = true; revoked_at = some now }
  save (Dict.put agent entry' agents)
  pure (public_view entry')
