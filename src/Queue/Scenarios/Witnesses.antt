-- ===== src/Queue/Scenarios/Witnesses.antt =====
-- The theorems on the queue at the task of `Scenarios`.
use Prim.Native.String.{String}
use oracle_patching.Prelude.{◌≡◌, ◌≢◌, eq_iff, refl, subst, inl, none, some}
use oracle_patching.Prelude.Text.{id_fullmatch, codes, has_dotdot, is_on}
use oracle_patching.Prelude.Dict
use oracle_patching.Exec.{Result, ◌>>=◌}
use oracle_patching.Queue.Store.{Job, QueueError, Queue, public, valid_job_id, read_file}
use oracle_patching.Queue.Claim.{Claim, claim, is_busy}
use oracle_patching.Queue.Lease.{extend_lease, defer_pending, require_reconciliation, complete}
use oracle_patching.Queue.Publish.{publish_task}
use oracle_patching.Queue.Exclusion.{Stored, Exclusive}
use oracle_patching.Queue.Exclusion.Claims.{Granted}
use oracle_patching.Queue.Fencing.Stale.{Refused, claim-Granted, claim-fences}
use oracle_patching.Queue.Runs.{
  publishes, claims, Reach, here, then', Reach-Exclusive, one_under_way,
}
use oracle_patching.Queue.Scenarios.{
  world, payload, first_job, claimed_job, holding, empty, publish_first, claim_first,
}

empty-Exclusive : Exclusive empty
unfolding Dict.get read_file
empty-Exclusive = record { unique = λ i j a b sa sb ba bb sh. cc }

abbrev two_steps : Queue
two_steps =
    (claim (world "pending") "node1" "agent1" 60 none
      (publish_task (world "pending") "plan1" "task1" "node1" "grid_rolling_opatch" payload
        empty).1).1

two_steps-Reach : Reach empty two_steps
two_steps-Reach =
    then'
      (then' here
        (publishes (world "pending") "plan1" "task1" "node1" "grid_rolling_opatch" payload))
      (claims (world "pending") "node1" "agent1" 60 none)

two_steps-Stored : Stored two_steps "plan1__task1" claimed_job
unfolding publish_task claim ◌>>=◌ public id_fullmatch codes has_dotdot is_on valid_job_id read_file
    Dict.get Dict.put Dict.keys
two_steps-Stored = refl

one_under_way_example : ◌≡◌ {A = String} "plan1__task1" "plan1__task1"
unfolding is_busy
one_under_way_example =
    one_under_way empty two_steps "plan1__task1" "plan1__task1" claimed_job claimed_job
      empty-Exclusive two_steps-Reach two_steps-Stored two_steps-Stored refl refl (inl refl)

queued-Exclusive : Exclusive (holding first_job)
queued-Exclusive =
    subst (λ (r : Result QueueError Job × Queue). Exclusive r.1) publish_first
      (Reach-Exclusive empty-Exclusive (
        then' here
          (publishes (world "pending") "plan1" "task1" "node1" "grid_rolling_opatch" payload)))

abbrev given_claim : Claim
given_claim = record { job = public claimed_job; claim_token = "tok" }

claim-Granted_example :
    Exclusive (holding claimed_job)
    × Granted
        (world "pending")
        "node1"
        "agent1"
        60
        given_claim
        (holding first_job)
        (holding claimed_job)
claim-Granted_example =
    claim-Granted (world "pending") "node1" "agent1" 60 none (holding first_job)
      (holding claimed_job) queued-Exclusive claim_first

other_agent : ◌≢◌ {A = String} "agent2" "agent1"
other_agent e = cc ((eq_iff "agent2" "agent1").1 e)

claim-fences_example :
    Refused
      (extend_lease (world "pending") "plan1__task1" "agent2" 90 none (some "tok"))
      (holding claimed_job)
    × Refused
        (require_reconciliation (world "pending") "plan1__task1" "agent2" "lost" none (some "tok"))
        (holding claimed_job)
    × Refused
        (defer_pending
          (world "pending")
          (world "pending")
          (λ s. s)
          "plan1__task1"
          "agent2"
          "lost"
          none
          (some "tok"))
        (holding claimed_job)
    × Refused
        (complete
          (world "pending")
          (world "pending")
          (λ s. s)
          "plan1__task1"
          "agent2"
          none
          none
          (some "tok"))
        (holding claimed_job)
unfolding public
claim-fences_example =
    claim-fences (world "pending") "node1" "agent1" 60 none (holding first_job)
      (holding claimed_job) queued-Exclusive claim_first (world "pending") (world "pending")
      (λ s. s) "agent2" "lost" "tok" 90 none none (inl other_agent)
