-- ===== src/Pipeline/StageReads.antt =====
-- What the staging of media does without touching the evidence files.
use Prim.Native.String.{String}
use oracle_patching.Prelude.{Bool, string_eq, nat_eq, Option, none, some}
use oracle_patching.Exec.{Result, ok, err}
use oracle_patching.Json.{Json}
use oracle_patching.Remote.Quote.{Text}
use oracle_patching.Remote.Run.{RemoteError, Completed}
use oracle_patching.World.Quiet.{Quiet, quiet_rules}
use oracle_patching.Pipeline.Targets.{SshNode, configured_nodes}
use oracle_patching.Pipeline.Reads.{read_evidence-Quiet, readable-Quiet}
use oracle_patching.Pipeline.Owner.{owner_from, stage_owner_from_snapshot}
use oracle_patching.Pipeline.StageNodes.{
  Env, Source, from_host, from_zip, Route, StageRequest, sent_over, direct_over, try_direct,
  or_relay, send_to, payload_of,
}
use oracle_patching.Pipeline.Stage.{
  some_owner, host_source, media_source, some_route, media_route, source_ips,
}

module _ (env : oracle_patching.Pipeline.Targets.Env) (h : String) where
  pub owner_from-Quiet : (snapshot : Option Json) → Quiet (owner_from env h snapshot)
  unfolding owner_from
  owner_from-Quiet none = search quiet_rules
  owner_from-Quiet (some s) = search (quiet_rules, read_evidence-Quiet, readable-Quiet)

  pub stage_owner-Quiet : Quiet (stage_owner_from_snapshot env h)
  unfolding stage_owner_from_snapshot
  stage_owner-Quiet = search (quiet_rules, read_evidence-Quiet, owner_from-Quiet)

module _ (env : Env) (r : StageRequest) where
  pub sent_over-Quiet :
      (ip : Text) (sent : Result RemoteError Completed) → Quiet (sent_over env r ip sent)
  unfolding sent_over
  sent_over-Quiet ip (ok p) = search quiet_rules
  sent_over-Quiet ip (err e) = search quiet_rules

  pub direct_over-Quiet :
      (a : Text) (sudo : Bool) (n : SshNode) (ip : Option Text)
      → Quiet (direct_over env r a sudo n ip)
  unfolding direct_over
  direct_over-Quiet a sudo n none = search quiet_rules
  direct_over-Quiet a sudo n (some ip) = search (quiet_rules, sent_over-Quiet)

  pub try_direct-Quiet : (a : Text) (sudo : Bool) (n : SshNode) → Quiet (try_direct env r a sudo n)
  unfolding try_direct
  try_direct-Quiet a sudo n = search (quiet_rules, direct_over-Quiet)

  pub or_relay-Quiet :
      (a : Text) (sudo : Bool) (n : SshNode) (sent : Option (Completed × Text))
      → Quiet (or_relay env r a sudo n sent)
  unfolding or_relay
  or_relay-Quiet a sudo n none = search quiet_rules
  or_relay-Quiet a sudo n (some p) = search quiet_rules

  pub send_to-Quiet : (n : SshNode) (s : Source) → Quiet (send_to env r n s)
  unfolding send_to
  send_to-Quiet n (from_host h a sudo) = search (quiet_rules, try_direct-Quiet, or_relay-Quiet)
  send_to-Quiet n (from_zip p) = search quiet_rules

  pub payload_of-Quiet :
      (n : SshNode) (out : Text) (j : Result Text Json) → Quiet (payload_of env r n out j)
  unfolding payload_of
  payload_of-Quiet n out (ok j) = search (quiet_rules, readable-Quiet)
  payload_of-Quiet n out (err e) = search quiet_rules

module _ (env : Env) (h : String) where
  pub some_owner-Quiet : (o : Option String) → Quiet (some_owner env h o)
  unfolding some_owner
  some_owner-Quiet none = search quiet_rules
  some_owner-Quiet (some o) = search quiet_rules

  pub host_source-Quiet :
      (dir : Text) (hosts : Json) (id : String) → Quiet (host_source env h dir hosts id)
  unfolding host_source
  host_source-Quiet dir hosts id = search (quiet_rules, readable-Quiet) depth 14

  pub media_source-Quiet : (dir : Text) (body : Json) → Quiet (media_source env h dir body)
  unfolding media_source
  media_source-Quiet dir body = search (quiet_rules, readable-Quiet, host_source-Quiet) depth 14

  pub some_route-Quiet : (o : Option Route) → Quiet (some_route env h o)
  unfolding some_route
  some_route-Quiet none = search quiet_rules
  some_route-Quiet (some o) = search quiet_rules

  pub media_route-Quiet : (body : Json) → Quiet (media_route env h body)
  unfolding media_route
  media_route-Quiet body = search (quiet_rules, readable-Quiet, some_route-Quiet)

  pub source_ips-Quiet : (s : Source) (route : Route) → Quiet (source_ips env h s route)
  unfolding source_ips
  source_ips-Quiet (from_host x a sudo) route = search (quiet_rules)
  source_ips-Quiet (from_zip p) route = search quiet_rules
