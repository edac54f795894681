-- ===== src/Enroll/Scenarios.antt =====
-- An agent enrolled and then revoked, and the theorems on it.
use Prim.Native.String.{String}
use oracle_patching.Prelude.{
  ◌≡◌, ◌≢◌, refl, ◌<>◌, ◌&&◌, true, false, none, some, [], ◌∷◌, ◌==◌, string_eq, if◌then◌else◌,
}
use oracle_patching.Prelude.Text.{strip, id_fullmatch, codes}
use oracle_patching.Prelude.Dict
use oracle_patching.Exec.{ok, ◌>>=◌}
use oracle_patching.Enroll.{Registry, Entry, enroll, verify, revoke}
use oracle_patching.Enroll.Laws.{verify-enroll, verify-revoke}

abbrev digest : String → String
digest t = "digest of " <> t

abbrev entry : Entry
entry = record {
  agent_id = "agent1";
  node = "node1";
  token_sha256 = "digest of tok";
  enrolled_at = 7;
  revoked = false;
  revoked_at = none;
}

abbrev enrolled : Registry
enrolled = Registry.file (("agent1", entry) ∷ [])

abbrev revoked : Registry
revoked = Registry.file (("agent1", record entry { revoked = true; revoked_at = some 9 }) ∷ [])

enroll_first : enroll digest "tok" 7 "node1" " agent1 " Registry.missing ≡ (
  ok (record { agent_id = "agent1"; node = "node1"; agent_token = "tok"; enrolled_at = 7 }),
  enrolled,
)
unfolding enroll ◌>>=◌ strip id_fullmatch codes Dict.put
enroll_first = refl

revoke_first : revoke 9 "agent1" enrolled ≡ (
  ok (record {
    agent_id = "agent1";
    node = "node1";
    enrolled_at = 7;
    revoked = true;
    revoked_at = some 9;
  }),
  revoked,
)
unfolding revoke ◌>>=◌ strip id_fullmatch codes Dict.put Dict.get
revoke_first = refl

non_empty : ◌≢◌ {A = String} "digest of tok" ""
non_empty e = cc

agent_non_empty : ◌≢◌ {A = String} "agent1" ""
agent_non_empty e = cc

token_non_empty : ◌≢◌ {A = String} "tok" ""
token_non_empty e = cc

verify-enroll_example : verify digest enrolled "agent1" "tok" (some "node1") ≡ (
    if entry.agent_id == strip "agent1"
    then entry.node == entry.node && digest "tok" == digest "tok"
    else verify digest Registry.missing "agent1" "tok" (some "node1"))
verify-enroll_example =
    verify-enroll digest "tok" 7 "node1" " agent1 " Registry.missing enrolled enroll_first non_empty
      "agent1" "tok" (some "node1") agent_non_empty token_non_empty

verify-revoke_example : verify digest revoked "agent1" "tok" none ≡ (
    if strip "agent1" == strip "agent1" then false else verify digest enrolled "agent1" "tok" none)
verify-revoke_example =
    verify-revoke digest 9 "agent1" enrolled revoked revoke_first "agent1" "tok" none
