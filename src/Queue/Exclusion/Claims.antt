-- ===== src/Queue/Exclusion/Claims.antt =====
-- A claim keeps the exclusion, and goes to the first task of its plan that is not done.
use Prim.Native.String.{String}
use mathlib.Core.List.{Memᴰ}
use oracle_patching.Prelude.{
  ℕ, ◌+◌, ◌≡◌, ◌≢◌, refl, sym, subst, ap, ◌∙◌, ◌⊎◌, inl, inr, true, false, Option, none, some, List,
  [], ◌∷◌, arith, eq_iff, string_eq, any, any-eq-false, select, mem-select, mem-cases,
}
use oracle_patching.Prelude.Text.{str_ltb, str_ltb_irrefl}
use oracle_patching.Exec.{pure}
use oracle_patching.Exec.Triple.{
  Triple, Triple-pure, Triple-if, Triple-guard, Triple-gets, Triple-weaken, Triple-bind,
  Triple-both, Triple-given, Triple-with,
}
use oracle_patching.Queue.Store.{Job, Queue, Env, claimed, public, put_job, known, names, read_all}
use oracle_patching.Queue.Claim.{
  Claim, is_queued, is_busy, is_done, is_peer, comes_first, blocks_node, eligible, granted, grant,
  claim_first, claim_from, claim, lapsed, expired, expire_all,
}
use oracle_patching.Queue.Exclusion.{
  Stored, Stored-job_id, Stored-put, Stored-put_self, Exclusive, put-Exclusive,
}
use oracle_patching.Queue.Scan.{Reads, Triple-read_all}
use oracle_patching.Queue.Scan.Expiry.{Agrees, Scanned, Triple-expire_all, Agrees-of_Reads}
use oracle_patching.Queue.Triples.{
  Triple-queue_dir, Triple-identifier, Triple-require_enrollment, Triple-write_job, Triple-expire,
}

-- What a claim gives to the agent, and what it leaves of the job.
pub record Handed (env : Env) (agent : String) (lease : ℕ) (before after : Job) : Type 0 where
  pub status : after.status ≡ claimed
  pub claimed_by : after.claimed_by ≡ some agent
  pub lease_expires_epoch : after.lease_expires_epoch ≡ some (env.now + lease)
  pub claim_token_sha256 : after.claim_token_sha256 ≡ some (env.sha256 env.token)
  pub claim_generation : after.claim_generation ≡ before.claim_generation + 1
  pub plan_id : after.plan_id ≡ before.plan_id
  pub task_id : after.task_id ≡ before.task_id
  pub node : after.node ≡ before.node
  pub adapter : after.adapter ≡ before.adapter
  pub attempt : after.attempt ≡ before.attempt
  pub payload : after.payload ≡ before.payload

-- What a claim that returned a job says of the queue that it found, `from`, and of the one that it
-- leaves.
pub record Granted (env : Env) (node agent : String) (lease : ℕ) (c : Claim) (from q : Queue)
    : Type 0 where
  pub before : Job
  pub was_stored : Stored from before.job_id before
  pub was_queued : is_queued before.status ≡ true
  pub on_node : before.node ≡ node
  pub shown : c.job ≡ public (granted env agent lease before)
  pub token : c.claim_token ≡ env.token
  pub stored : Stored q before.job_id (granted env agent lease before)
  pub handed : Handed env agent lease before (granted env agent lease before)
  pub in_order :
      (id : String) (b : Job)
      → Stored q id b
      → b.plan_id ≡ before.plan_id
      → str_ltb b.task_id before.task_id ≡ true
      → is_done b ≡ true

abbrev pub Claimed : Env → String → String → ℕ → Queue → Option Claim → Queue → Type 0
Claimed env node agent lease from none q = Unit
Claimed env node agent lease from (some c) q = Granted env node agent lease c from q

-- What is still queued in memory stands so in the queue `from`.
abbrev Origin : Queue → List Job → Type 0
Origin from jobs =
    (job : Job) → Memᴰ job jobs → is_queued job.status ≡ true → Stored from job.job_id job

queued-expired :
    (now : ℕ) (job : Job) → lapsed now job ≡ true → is_queued (expired now job).status ≡ false
unfolding expired is_queued
queued-expired now job h = rw h refl

Origin-cons :
    (from : Queue) (a : Job) (jobs : List Job)
    → (is_queued a.status ≡ true → Stored from a.job_id a)
    → Origin from jobs
    → Origin from (a ∷ jobs)
Origin-cons from a jobs first rest job m queued = elim (mem-cases m) [
  | inl e ↦
      subst (λ (x : Job). Stored from x.job_id x) (sym e)
        (first (ap (λ (x : Job). is_queued x.status) (sym e) ∙ queued))
  | inr m' ↦ rest job m' queued
]

Triple-expire_all-Origin :
    (env : Env) (from : Queue) (jobs : List Job)
    → Origin from jobs
    → Triple (λ q. Unit {0}) (expire_all env jobs) (λ jobs' q. Origin from jobs') (λ q. Unit {0})
unfolding expire_all
Triple-expire_all-Origin env from [] o = Triple-pure [] λ q h. o
Triple-expire_all-Origin env from (a ∷ jobs) o =
    Triple-bind (λ r q. Unit {0} × (is_queued r.0.status ≡ true → Stored from r.0.job_id r.0)) _ _
      (Triple-expire (λ q h. h) env a (λ q h f. (tt, o a (Memᴰ.head refl)))
        (λ q h l. (tt, λ queued. cc (queued, queued-expired env.now a l))))
      λ r.
        Triple-bind
          (λ jobs' q.
            (is_queued r.0.status ≡ true → Stored from r.0.job_id r.0) × Origin from jobs')
          _ _
          (record {
            at = λ q first.
                (Triple-with (λ jobs' q. Origin from jobs') _ (λ q h. first.1)
                    (Triple-expire_all-Origin env from jobs (λ j m. o j (Memᴰ.tail m)))).at
                  q tt;
          })
          λ jobs'. Triple-pure (r.0 ∷ jobs') λ q h. Origin-cons from r.0 jobs' h.0 h.1

record Eligible (node : String) (jobs : List Job) (job : Job) : Type 0 where
  on_node : job.node ≡ node
  was_queued : is_queued job.status ≡ true
  free : any (λ j. is_busy j.status) (select (is_peer job) jobs) ≡ false
  first : any (comes_first job) (select (is_peer job) jobs) ≡ false

eligible-Eligible :
    (node : String) (jobs : List Job) (job : Job)
    → eligible node jobs job ≡ true
    → Eligible node jobs job
unfolding eligible
eligible-Eligible node jobs job h = ground (arith, eq_iff job.node node)

is_peer-true :
    (job b : Job) → b.plan_id ≡ job.plan_id → b.job_id ≢ job.job_id → is_peer job b ≡ true
unfolding is_peer
is_peer-true job b p n = ground (arith, eq_iff b.plan_id job.plan_id, eq_iff b.job_id job.job_id)

blocks_node-true :
    (node : String) (b : Job) → b.node ≡ node → is_busy b.status ≡ true → blocks_node node b ≡ true
unfolding blocks_node
blocks_node-true node b n h = ground (arith, eq_iff b.node node)

comes_first-false :
    (job b : Job)
    → comes_first job b ≡ false
    → str_ltb b.task_id job.task_id ≡ true
    → is_done b ≡ true
unfolding comes_first
comes_first-false job b h l = ground arith

module _ (env : Env) (node agent : String) (lease : ℕ) (jobs : List Job) (q : Queue)
    (agrees : Agrees env.now (λ job. ⊥ ⊎ Memᴰ job jobs) q)
    (free : any (blocks_node node) jobs ≡ false) (job : Job) (e : Eligible node jobs job)
    (from : Queue) (origin : Stored from job.job_id job) where
  in_memory : (id : String) (b : Job) → Stored q id b → Memᴰ b jobs
  in_memory id b st = elim (agrees.listed id b st) [ inl x ↦ absurd x | inr m ↦ m ]

  peer :
      (id : String) (b : Job)
      → Stored q id b
      → job.job_id ≢ id
      → b.plan_id ≡ job.plan_id
      → Memᴰ b (select (is_peer job) jobs)
  peer id b st n p =
      mem-select (is_peer job) jobs b (in_memory id b st)
        (is_peer-true job b p (λ x. n (sym x ∙ Stored-job_id _ id b st)))

  grant-apart :
      (id : String) (b : Job)
      → Stored q id b
      → job.job_id ≢ id
      → is_busy b.status ≡ true
      → (job.node ≡ b.node) ⊎ (job.plan_id ≡ b.plan_id)
      → ⊥
  grant-apart id b st n busy (inl same) = cc (
    any-eq-false (blocks_node node) jobs b free (in_memory id b st),
    blocks_node-true node b (sym same ∙ e.on_node) busy,
  )
  grant-apart id b st n busy (inr same) =
      cc (any-eq-false (λ j. is_busy j.status) _ b e.free (peer id b st n (sym same)), busy)

  grant-Exclusive : Exclusive q → Exclusive (put_job job.job_id (granted env agent lease job) q)
  unfolding granted
  grant-Exclusive ex =
      put-Exclusive job.job_id (granted env agent lease job) q ex
        λ id b st n busy _ same. grant-apart id b st n busy same

  grant-Granted :
      str_ltb job.task_id job.task_id ≡ false
      → Granted env node agent lease
          (record { job = public (granted env agent lease job); claim_token = env.token })
          from
          (put_job job.job_id (granted env agent lease job) q)
  unfolding granted known
  grant-Granted irreflexive = record {
    before = job;
    was_stored = origin;
    was_queued = e.was_queued;
    on_node = e.on_node;
    shown = refl;
    token = refl;
    stored = Stored-put_self job.job_id (granted env agent lease job) q refl refl;
    handed = record {
      status = refl;
      claimed_by = refl;
      lease_expires_epoch = refl;
      claim_token_sha256 = refl;
      claim_generation = refl;
      plan_id = refl;
      task_id = refl;
      node = refl;
      adapter = refl;
      attempt = refl;
      payload = refl;
    };
    in_order = λ id b st p l. elim (Stored-put job.job_id id (granted env agent lease job) b q st) [
      | inl (_, same) ↦ cc (irreflexive, l, ap (λ (j : Job). j.task_id) same)
      | inr (n, old) ↦
          comes_first-false job b (any-eq-false (comes_first job) _ b e.first (peer id b old n p)) l
    ];
  }

module _ (env : Env) (node agent : String) (lease : ℕ) (jobs : List Job)
    (free : any (blocks_node node) jobs ≡ false) (from : Queue) (origin : Origin from jobs) where
  Triple-grant :
      (job : Job)
      → Eligible node jobs job
      → Memᴰ job jobs
      → Triple
          (Scanned env.now (λ _. ⊥) jobs)
          (grant env agent lease job)
          (λ c q. Exclusive q × Claimed env node agent lease from c q)
          Exclusive
  unfolding grant granted
  Triple-grant job e m =
      Triple-bind
        (λ _ q.
          Exclusive q
          × Granted env node agent lease
              (record { job = public (granted env agent lease job); claim_token = env.token }) from
              q)
        _ _
        (Triple-write_job (λ q h. h.0) env (granted env agent lease job)
          (λ q h. (
            grant-Exclusive env node agent lease jobs q h.1 free job e from
                (origin job m e.was_queued) h.0,
            grant-Granted env node agent lease jobs q h.1 free job e from
                (origin job m e.was_queued) (str_ltb_irrefl job.task_id),
          )))
        λ _. Triple-pure _ (λ q h. h)

  Triple-claim_first :
      (rest : List Job)
      → ((job : Job) → Memᴰ job rest → Memᴰ job jobs)
      → Triple
          (Scanned env.now (λ _. ⊥) jobs)
          (claim_first env node agent lease jobs rest)
          (λ c q. Exclusive q × Claimed env node agent lease from c q)
          Exclusive
  unfolding claim_first
  Triple-claim_first [] within = Triple-pure none (λ q h. (h.0, tt))
  Triple-claim_first (job ∷ rest) within =
      Triple-if (eligible node jobs job) (grant env agent lease job)
        (claim_first env node agent lease jobs rest)
        (λ t. Triple-grant job (eligible-Eligible node jobs job t) (within job (Memᴰ.head refl)))
        (λ f. Triple-claim_first rest (λ j m. within j (Memᴰ.tail m)))

Triple-claim_from :
    (env : Env) (node agent : String) (lease : ℕ) (jobs : List Job) (from : Queue)
    → Origin from jobs
    → Triple
        (Scanned env.now (λ _. ⊥) jobs)
        (claim_from env node agent lease jobs)
        (λ c q. Exclusive q × Claimed env node agent lease from c q)
        Exclusive
unfolding claim_from
Triple-claim_from env node agent lease jobs from origin =
    Triple-if (any (blocks_node node) jobs) (pure none) (claim_first env node agent lease jobs jobs)
      (λ t. Triple-pure none (λ q h. (h.0, tt)))
      (λ f. Triple-claim_first env node agent lease jobs f from origin jobs (λ j m. m))

Triple-read :
    (env : Env) (from : Queue) (ns : List String)
    → Triple
        (λ q. (Exclusive q × (q ≡ from)) × (ns ≡ names q))
        (read_all ns)
        (λ jobs q. Origin from jobs × Scanned env.now (λ _. ⊥) jobs q)
        Exclusive
Triple-read env from ns =
    Triple-weaken _
      (Triple-read_all (λ q. (Exclusive q × (q ≡ from)) × (ns ≡ names q)) (λ q h. h.0.0) ns)
      (λ q h. h)
      (λ jobs q h. (
        λ job m queued. subst (λ x. Stored x job.job_id job) h.0.0.1 (h.1.1 job m),
        (h.0.0.0, Agrees-of_Reads env.now q jobs (subst (λ x. Reads q x jobs) h.0.1 h.1)),
      ))
      (λ q h. h)

Triple-scan :
    (env : Env) (from : Queue) (jobs : List Job)
    → Origin from jobs
    → Triple
        (Scanned env.now (λ _. ⊥) jobs)
        (expire_all env jobs)
        (λ jobs' q. Origin from jobs' × Scanned env.now (λ _. ⊥) jobs' q)
        Exclusive
Triple-scan env from jobs o =
    Triple-weaken _
      (Triple-both _ (Triple-expire_all env (λ _. ⊥) jobs)
        (Triple-expire_all-Origin env from jobs o) (λ q h. tt))
      (λ q h. h) (λ jobs' q h. (h.1, h.0)) (λ q h. h)

-- A claim keeps the exclusion, and a job that it returns is `Granted`.
pub Triple-claim :
    (env : Env) (node agent : String) (lease : ℕ) (token : Option String) (from : Queue)
    → Triple
        (λ q. Exclusive q × (q ≡ from))
        (claim env node agent lease token)
        (λ c q. Exclusive q × Claimed env node agent lease from c q)
        Exclusive
unfolding claim
Triple-claim env node agent lease token from =
    let Found : Queue → Type 0 = λ q. Exclusive q × (q ≡ from) in
    Triple-bind (λ _. Found) _ _ (Triple-identifier (λ q h. h.0) node _)
      λ _.
        Triple-bind (λ _. Found) _ _ (Triple-identifier (λ q h. h.0) agent _)
          λ _.
            Triple-guard _ _ _ (λ q h. h.0)
              λ range.
                Triple-bind (λ _. Found) _ _
                  (Triple-require_enrollment (λ q h. h.0) env agent token node)
                  λ _.
                    Triple-bind (λ _. Found) _ _ (Triple-queue_dir (λ q h. h.0) env)
                      λ _.
                        Triple-bind (λ ns q. Found q × (ns ≡ names q)) _ _
                          (Triple-gets names (λ q h. (h, refl)))
                          λ ns.
                            Triple-bind
                              (λ jobs q. Origin from jobs × Scanned env.now (λ _. ⊥) jobs q) _ _
                              (Triple-read env from ns)
                              λ jobs. Triple-given _ λ o.
                                Triple-bind
                                  (λ jobs' q. Origin from jobs' × Scanned env.now (λ _. ⊥) jobs' q)
                                  _ _ (Triple-scan env from jobs o)
                                  λ jobs'.
                                    Triple-given _
                                      (Triple-claim_from env node agent lease jobs' from)

pub claim-Exclusive :
    (env : Env) (node agent : String) (lease : ℕ) (token : Option String)
    → Triple Exclusive (claim env node agent lease token) (λ _. Exclusive) Exclusive
claim-Exclusive env node agent lease token = record {
  at = λ q h.
      (Triple-weaken _ (Triple-claim env node agent lease token q) (λ s p. p) (λ c s p. p.0)
          (λ s p. p)).at
        q (h, refl);
}
