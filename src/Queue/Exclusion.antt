-- ===== src/Queue/Exclusion.antt =====
-- No node and no plan has two jobs under way.
pub mod Workers
pub mod Publishers
pub mod Claims
use Prim.Native.String.{String}
use mathlib.Core.List.{Memᴰ}
use oracle_patching.Prelude.{
  ℕ, ◌≡◌, ◌≢◌, refl, sym, ap, ◌∙◌, subst, ◌⊎◌, inl, inr, Bool, true, false, not, ◌&&◌, ◌||◌, Option,
  none, some, List, [], ◌∷◌, arith, eq_iff, eq_refl, ◌==◌, string_eq, if◌then◌else◌, Bool-cases,
  any, any-eq-false, select, mem-select,
}
use oracle_patching.Prelude.Dict
use oracle_patching.Exec.{Result, ok, err, Exec, pure, ensure, gets, lift, modify, ◌>>=◌, ◌>>◌}
use oracle_patching.Exec.Triple.{
  Triple, Meets, Triple-pure, Triple-lift, Triple-gets, Triple-if, Triple-weaken, Triple-modify,
  Triple-ensure, Triple-bind,
}
use oracle_patching.Queue.Store.{
  Job, File, doc, link, unreadable, Queue, Env, Action, read_file, read_job, put_job, write_job,
  job_path, queue_dir, known, other,
}
use oracle_patching.Queue.Claim.{is_busy}

-- The file `id` reads as the job.
abbrev pub Stored : Queue → String → Job → Type 0
Stored q id job = read_file id (Dict.get id q.jobs) ≡ ok job

abbrev pub Shares : Job → Job → Type 0
Shares a b = (a.node ≡ b.node) ⊎ (a.plan_id ≡ b.plan_id)

Shares-sym : (a b : Job) → Shares a b → Shares b a
Shares-sym a b (inl e) = inl (sym e)
Shares-sym a b (inr e) = inr (sym e)

Shares-of : (a b c : Job) → b.node ≡ a.node → b.plan_id ≡ a.plan_id → Shares b c → Shares a c
Shares-of a b c n p (inl e) = inl (sym n ∙ e)
Shares-of a b c n p (inr e) = inr (sym p ∙ e)

pub record Exclusive (q : Queue) : Type 0 where
  pub unique :
      (i j : String) (a b : Job)
      → Stored q i a
      → Stored q j b
      → is_busy a.status ≡ true
      → is_busy b.status ≡ true
      → Shares a b
      → i ≡ j

-- A job that reads back has the name of its file.
pub Stored-job_id :
    (f : Option File) (id : String) (job : Job) → read_file id f ≡ ok job → job.job_id ≡ id
unfolding read_file
Stored-job_id none id job h = cc
Stored-job_id (some (link alive)) id job h = cc
Stored-job_id (some unreadable) id job h = cc
Stored-job_id (some (doc j)) id job h = ground (arith, eq_iff j.job_id id)

read_file_doc : (id : String) (a b : Job) → read_file id (some (doc a)) ≡ ok b → b ≡ a
unfolding read_file
read_file_doc id a b h = ground (arith, eq_iff a.job_id id)

ne_beq : (i j : String) → i ≢ j → (i == j) ≡ false
ne_beq i j n = ground (arith, eq_iff i j)

-- What is stored after a write: the job written, or what was stored before.
pub Stored-put :
    (i j : String) (a b : Job) (q : Queue)
    → Stored (put_job i a q) j b
    → ((i ≡ j) × (b ≡ a)) ⊎ ((i ≢ j) × Stored q j b)
unfolding put_job
Stored-put i j a b q h = elim (Bool-cases (i == j)) [
  | inl e ↦ inl (
    (eq_iff i j).0 e,
    read_file_doc j a b (rw (e) at (rw (Dict.get-put i j (doc a) q.jobs) at h)),
  )
  | inr n ↦ inr (λ p. cc ((eq_iff i j).1 p), rw n at (rw (Dict.get-put i j (doc a) q.jobs) at h))
]

read_file-known :
    (id : String) (a : Job)
    → a.job_id ≡ id
    → known a.status ≡ true
    → read_file id (some (doc a)) ≡ ok a
unfolding read_file
read_file-known id a e k = ground (arith, eq_iff a.job_id id)

pub Stored-put_self :
    (id : String) (a : Job) (q : Queue)
    → a.job_id ≡ id
    → known a.status ≡ true
    → Stored (put_job id a q) id a
unfolding put_job
Stored-put_self id a q e k =
    ap (read_file id) (Dict.get-put_self id (doc a) q.jobs) ∙ read_file-known id a e k

pub Stored-put_other :
    (id j : String) (a b : Job) (q : Queue) → id ≢ j → Stored q j b → Stored (put_job id a q) j b
unfolding put_job
Stored-put_other id j a b q n st =
    ap (read_file j) (
      Dict.get-put id j (doc a) q.jobs
      ∙ ap (λ c. if c then some (doc a) else Dict.get j q.jobs) (ne_beq id j n))
    ∙ st

-- A write keeps the exclusion where the job written shares with no other job under way.
pub put-Exclusive :
    (i : String) (a : Job) (q : Queue)
    → Exclusive q
    → ((j : String) (b : Job)
        → Stored q j b
        → i ≢ j
        → is_busy b.status ≡ true
        → is_busy a.status ≡ true
        → Shares a b
        → ⊥)
    → Exclusive (put_job i a q)
put-Exclusive i a q ex apart = record {
  unique = λ j k b c sb sc bb bc sh. elim (Stored-put i j a b q sb) [
    | inl (ij, ba) ↦ elim (Stored-put i k a c q sc) [
      | inl (ik, ca) ↦ sym ij ∙ ik
      | inr (ik, oc) ↦ absurd (apart k c oc ik bc (rw ba at bb) (rw ba at sh))
    ]
    | inr (ij, ob) ↦ elim (Stored-put i k a c q sc) [
      | inl (ik, ca) ↦ absurd (apart j b ob ij bb (rw ca at bc) (Shares-sym b a (rw ca at sh)))
      | inr (ik, oc) ↦ ex.unique j k b c ob oc bb bc sh
    ]
  ];
}

-- It does so where the job keeps its node and plan, and was under way if it is now.
pub put_settled-Exclusive :
    (i : String) (a b : Job) (q : Queue)
    → Exclusive q
    → Stored q i a
    → b.node ≡ a.node
    → b.plan_id ≡ a.plan_id
    → (is_busy b.status ≡ true → is_busy a.status ≡ true)
    → Exclusive (put_job i b q)
put_settled-Exclusive i a b q ex st n p busy =
    put-Exclusive i b q ex
      λ j c sc ij bc bb sh. ij (ex.unique i j a c st sc (busy bb) bc (Shares-of a b c n p sh))

pub put_idle-Exclusive :
    (i : String) (a : Job) (q : Queue)
    → Exclusive q
    → is_busy a.status ≡ false
    → Exclusive (put_job i a q)
put_idle-Exclusive i a q ex idle = put-Exclusive i a q ex λ j c sc ij bc bb sh. cc
