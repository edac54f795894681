-- ===== src/Queue/Runs.antt =====
-- The queue under any number of publishers, workers and operators. Each piece of code that holds the
-- lock is a step; the steps of different calls come in any order.
use Prim.Native.String.{String}
use oracle_patching.Prelude.{ℕ, ◌≡◌, true, Option}
use oracle_patching.Json.{Json}
use oracle_patching.Exec.Triple.{keeps-Triple}
use oracle_patching.Queue.Store.{Job, Queue, Env}
use oracle_patching.Queue.Claim.{is_busy, claim}
use oracle_patching.Queue.Lease.{
  read_owned, extend_lease, require_reconciliation, release, conclude,
}
use oracle_patching.Queue.Publish.{publish_task}
use oracle_patching.Queue.Reconcile.{read_lapsed, close}
use oracle_patching.Queue.Exclusion.{Stored, Shares, Exclusive}
use oracle_patching.Queue.Exclusion.Workers.{
  read_owned-Exclusive, extend_lease-Exclusive, require_reconciliation-Exclusive, release-Exclusive,
  conclude-Exclusive, read_lapsed-Exclusive, close-Exclusive,
}
use oracle_patching.Queue.Exclusion.Publishers.{publish_task-Exclusive}
use oracle_patching.Queue.Exclusion.Claims.{claim-Exclusive}

pub data Step (q : Queue) : Queue → Type 0 where
  publishes :
      (env : Env) (plan_id task_id node adapter : String) (payload : Json)
      → Step q (publish_task env plan_id task_id node adapter payload q).1
  claims :
      (env : Env) (node agent : String) (lease : ℕ) (token : Option String)
      → Step q (claim env node agent lease token q).1
  extends :
      (env : Env) (id agent : String) (seconds : ℕ) (token claim_token : Option String)
      → Step q (extend_lease env id agent seconds token claim_token q).1
  parks :
      (env : Env) (id agent reason : String) (token claim_token : Option String)
      → Step q (require_reconciliation env id agent reason token claim_token q).1
  -- the first step of `defer_pending` and of `complete`
  checks :
      (env : Env) (id agent : String) (token claim_token : Option String)
      → Step q (read_owned env id agent token claim_token q).1
  releases :
      (env : Env) (id agent reason : String) (token claim_token : Option String)
      → Step q (release env id agent reason token claim_token q).1
  concludes :
      (env : Env) (id agent : String) (outcome : Json) (token claim_token : Option String)
      → Step q (conclude env id agent outcome token claim_token q).1
  -- the two steps of `reconcile`
  inspects : (env : Env) (id : String) → Step q (read_lapsed env id q).1
  closes :
      (env : Env) (id actor : String) (before : Job) (task : Json)
      → Step q (close env id actor before task q).1

pub data Reach (q : Queue) : Queue → Type 0 where
  here : Reach q q
  then' : {s t : Queue} → Reach q s → Step s t → Reach q t

Step-Exclusive : {q t : Queue} → Step q t → Exclusive q → Exclusive t
Step-Exclusive {q} (publishes env plan task node adapter payload) h =
    keeps-Triple _ q (publish_task-Exclusive env plan task node adapter payload) h
Step-Exclusive {q} (claims env node agent lease token) h =
    keeps-Triple _ q (claim-Exclusive env node agent lease token) h
Step-Exclusive {q} (extends env id agent seconds token claim_token) h =
    keeps-Triple _ q (extend_lease-Exclusive env id agent token claim_token seconds) h
Step-Exclusive {q} (parks env id agent reason token claim_token) h =
    keeps-Triple _ q (require_reconciliation-Exclusive env id agent token claim_token reason) h
Step-Exclusive {q} (checks env id agent token claim_token) h =
    keeps-Triple _ q (read_owned-Exclusive env id agent token claim_token) h
Step-Exclusive {q} (releases env id agent reason token claim_token) h =
    keeps-Triple _ q (release-Exclusive env id agent token claim_token reason) h
Step-Exclusive {q} (concludes env id agent outcome token claim_token) h =
    keeps-Triple _ q (conclude-Exclusive env id agent token claim_token outcome) h
Step-Exclusive {q} (inspects env id) h = keeps-Triple _ q (read_lapsed-Exclusive env id) h
Step-Exclusive {q} (closes env id actor before task) h =
    keeps-Triple _ q (close-Exclusive env id actor before task) h

pub Reach-Exclusive : {q t : Queue} → Exclusive q → Reach q t → Exclusive t
Reach-Exclusive h here = h
Reach-Exclusive h (then' r st) = Step-Exclusive st (Reach-Exclusive h r)

-- In every queue that any steps, in any order, lead to from one without two jobs under way on a node
-- or in a plan: two stored jobs that are claimed, running or awaiting reconciliation, and that share
-- their node or their plan, are the same job.
pub one_under_way :
    (q t : Queue) (i j : String) (a b : Job)
    → Exclusive q
    → Reach q t
    → Stored t i a
    → Stored t j b
    → is_busy a.status ≡ true
    → is_busy b.status ≡ true
    → Shares a b
    → i ≡ j
one_under_way q t i j a b h r sa sb ba bb sh = (Reach-Exclusive h r).unique i j a b sa sb ba bb sh

pub Reach-trans : {q s t : Queue} → Reach q s → Reach s t → Reach q t
Reach-trans r here = r
Reach-trans r (then' u st) = then' (Reach-trans r u) st
