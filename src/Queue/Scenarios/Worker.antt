-- ===== src/Queue/Scenarios/Worker.antt =====
-- The theorems on workers, publication and reconciliation at the task of `Scenarios`.
use mathlib.Core.List.{Memᴰ}
use oracle_patching.Prelude.{ℕ, ◌≡◌, ◌≤◌, any, refl, inl, inr, true, none, some, [], ◌∷◌, mem-cases}
use oracle_patching.Prelude.Text.{id_fullmatch, codes, has_dotdot, is_on, str_ltb}
use oracle_patching.Prelude.Dict
use oracle_patching.Json.{Json}
use oracle_patching.Exec.{ok, ◌>>=◌}
use oracle_patching.Queue.Store.{
  Job, Queue, public, valid_job_id, read_file, names, read_all, enrolled,
}
use oracle_patching.Queue.Claim.{Claim, claim, holds, lapsed, eligible, blocks_node, has_status}
use oracle_patching.Queue.Lease.{
  extended, extend_lease, deferred, defer_pending, parked, require_reconciliation, given, done,
  complete, is_result,
}
use oracle_patching.Queue.Publish.{new_job, or_empty, retry_count, as_attempt}
use oracle_patching.Queue.Exclusion.{Stored}
use oracle_patching.Queue.Fencing.{
  Wrote, Renewed, Parked, Requeued, extend_lease-Changed, require_reconciliation-Changed,
}
use oracle_patching.Queue.Triples.{Owned}
use oracle_patching.Queue.Fencing.Later.{
  ChangedLater, Verified, Sealed, defer_pending-ChangedLater, complete-ChangedLater,
}
use oracle_patching.Queue.Fencing.Stale.{Refused, stale-Refused}
use oracle_patching.Queue.Fencing.Lapse.{Lost, Admitted, late-Lost}
use oracle_patching.Queue.Finding.{Request, claim-returns}
use oracle_patching.Queue.Attempts.{Published, publish_task-Published}
use oracle_patching.Queue.Closing.{Closed, reconcile-Closed, list_jobs-public}
use oracle_patching.Queue.Scenarios.{
  world, late_world, payload, first_job, claimed_job, ended_job, reconciled_job, holding, empty,
  publish_first, extend_first, park_first, defer_first, complete_first, reconcile_first, list_first,
}

complete-ChangedLater_example :
    (outcome : Json) × ChangedLater
      (world "failed")
      (world "failed")
      (λ s. s)
      "plan1__task1"
      "agent1"
      (some "tok")
      (Sealed (world "failed") (given none) outcome)
      (done (world "failed") outcome)
      (holding claimed_job)
      (public ended_job)
      (holding ended_job)
complete-ChangedLater_example =
    complete-ChangedLater (world "failed") (world "failed") (λ s. s) "plan1__task1" "agent1" none
      none (some "tok") (holding claimed_job) (holding ended_job) (λ e. cc e) complete_first

reconcile-Closed_example :
    Closed late_world late_world
      (λ s. s)
      "plan1__task1"
      "operator"
      (holding claimed_job)
      (public reconciled_job)
      (holding reconciled_job)
reconcile-Closed_example =
    reconcile-Closed late_world late_world (λ s. s) "plan1__task1" "operator" (holding claimed_job)
      (holding reconciled_job) reconcile_first

defer_pending-ChangedLater_example :
    ((job : Job) × Owned
        (world "pending")
        "plan1__task1"
        "agent1"
        (some "tok")
        job
        (holding claimed_job)
      × Verified (world "pending") "pending" job)
    × Wrote
        (world "pending")
        "plan1__task1"
        "agent1"
        (some "tok")
        (Requeued "wait")
        (holding claimed_job)
        (public (deferred (world "pending") "wait" claimed_job))
        (holding (deferred (world "pending") "wait" claimed_job))
unfolding deferred
defer_pending-ChangedLater_example =
    defer_pending-ChangedLater (world "pending") (world "pending") (λ s. s) "plan1__task1" "agent1"
      "wait" none (some "tok") (holding claimed_job)
      (holding (deferred (world "pending") "wait" claimed_job)) defer_first

extend_lease-Changed_example :
    ((30 ≤ 90) × (90 ≤ 3600))
    × Wrote
        (world "pending")
        "plan1__task1"
        "agent1"
        (some "tok")
        (Renewed (world "pending") "agent1" (some "tok") 90)
        (holding claimed_job)
        (public (extended (world "pending") 90 claimed_job))
        (holding (extended (world "pending") 90 claimed_job))
extend_lease-Changed_example =
    extend_lease-Changed (world "pending") "plan1__task1" "agent1" 90 none (some "tok")
      (holding claimed_job) (holding (extended (world "pending") 90 claimed_job)) extend_first

require_reconciliation-Changed_example :
    Wrote
      (world "pending")
      "plan1__task1"
      "agent1"
      (some "tok")
      (Parked "lost")
      (holding claimed_job)
      (public (parked (world "pending") "lost" claimed_job))
      (holding (parked (world "pending") "lost" claimed_job))
require_reconciliation-Changed_example =
    require_reconciliation-Changed (world "pending") "plan1__task1" "agent1" "lost" none
      (some "tok") (holding claimed_job) (holding (parked (world "pending") "lost" claimed_job))
      park_first

claimed-Admitted :
    Admitted late_world "plan1__task1" "agent1" none (some "tok") claimed_job (holding claimed_job)
unfolding id_fullmatch codes has_dotdot is_on valid_job_id read_file Dict.get enrolled holds
claimed-Admitted = record {
  safe = refl;
  valid = refl;
  stored = refl;
  enrolment = refl;
  held = refl;
}

late-Lost_example :
    Lost late_world "plan1__task1" claimed_job
      (extend_lease late_world "plan1__task1" "agent1" 90 none (some "tok"))
      (holding claimed_job)
    × Lost late_world "plan1__task1" claimed_job
        (require_reconciliation late_world "plan1__task1" "agent1" "lost" none (some "tok"))
        (holding claimed_job)
    × Lost late_world "plan1__task1" claimed_job
        (defer_pending late_world late_world
          (λ s. s)
          "plan1__task1"
          "agent1"
          "lost"
          none
          (some "tok"))
        (holding claimed_job)
    × Lost late_world "plan1__task1" claimed_job
        (complete late_world late_world (λ s. s) "plan1__task1" "agent1" none none (some "tok"))
        (holding claimed_job)
unfolding lapsed is_result
late-Lost_example =
    late-Lost late_world "plan1__task1" "agent1" none (some "tok") claimed_job (holding claimed_job)
      claimed-Admitted refl late_world (λ s. s) 90 "lost" none refl refl

stale-Refused_example :
    Refused
      (extend_lease (world "pending") "plan1__task1" "agent1" 90 none (some "old"))
      (holding claimed_job)
    × Refused
        (require_reconciliation (world "pending") "plan1__task1" "agent1" "lost" none (some "old"))
        (holding claimed_job)
    × Refused
        (defer_pending
          (world "pending")
          (world "pending")
          (λ s. s)
          "plan1__task1"
          "agent1"
          "lost"
          none
          (some "old"))
        (holding claimed_job)
    × Refused
        (complete
          (world "pending")
          (world "pending")
          (λ s. s)
          "plan1__task1"
          "agent1"
          none
          none
          (some "old"))
        (holding claimed_job)
unfolding read_file Dict.get holds
stale-Refused_example =
    stale-Refused "plan1__task1" "agent1" none (some "old") (holding claimed_job) claimed_job refl
      (world "pending") (world "pending") (λ s. s) 90 "lost" none refl

valid_only : (job : Job) → Memᴰ job (first_job ∷ []) → valid_job_id job.job_id ≡ true
unfolding id_fullmatch codes has_dotdot valid_job_id
valid_only job m = elim (mem-cases m) [ inl e ↦ rw e refl | inr x ↦ elim x [ ] ]

first-Request :
    Request (world "pending") "node1" "agent1" 60 none (first_job ∷ []) (holding first_job)
unfolding id_fullmatch codes is_on read_file Dict.get Dict.keys enrolled read_all names lapsed any
    ◌>>=◌
first-Request = record {
  safe = refl;
  node_ok = refl;
  agent_ok = refl;
  range = refl;
  enrolment = refl;
  read = refl;
  lasting = refl;
  valid = valid_only;
}

claim-returns_example :
    (c : Claim) × (q' : Queue) × (claim
        (world "pending")
        "node1"
        "agent1"
        60
        none
        (holding first_job)
      ≡ (ok (some c), q'))
unfolding blocks_node eligible str_ltb
claim-returns_example =
    claim-returns (world "pending") "node1" "agent1" 60 none (first_job ∷ []) (holding first_job)
      first-Request refl refl

publish_task-Published_example :
    (attempt : ℕ) × (as_attempt (retry_count (or_empty payload)) ≡ ok attempt)
    × Published
        (new_job
          (world "pending")
          "plan1"
          "task1"
          "node1"
          "grid_rolling_opatch"
          attempt
          0
          (or_empty payload))
        empty
        first_job
        (holding first_job)
publish_task-Published_example =
    publish_task-Published (world "pending") "plan1" "task1" "node1" "grid_rolling_opatch" payload
      empty (holding first_job) publish_first

list_jobs-public_example :
    (holding claimed_job ≡ holding claimed_job)
    × ((j : Job)
        → Memᴰ j (public claimed_job ∷ [])
        → (j.claim_token_sha256 ≡ none)
          × (b : Job) × Stored (holding claimed_job) b.job_id b
          × (has_status (some "claimed") b.status ≡ true)
          × (j ≡ public b))
list_jobs-public_example =
    list_jobs-public (world "pending") (some "claimed") (holding claimed_job) (holding claimed_job)
      list_first
