-- ===== src/Queue/Scan.antt =====
-- What `claim` reads: every stored job, and stored jobs only.
pub mod Expiry
use Prim.Native.String.{String}
use mathlib.Core.List.{Memᴰ}
use oracle_patching.Prelude.{
  ℕ, ◌≡◌, ◌≢◌, refl, sym, subst, ap, ◌∙◌, ◌⊎◌, inl, inr, Bool, true, false, Option, none, some,
  List, [], ◌∷◌, ◌<>◌, arith, eq_iff, ◌==◌, if◌then◌else◌, Bool-cases, Option-cases, mem-cases,
}
use oracle_patching.Prelude.Dict
use oracle_patching.Prelude.Text.{str_ltb}
use oracle_patching.Exec.{Result, ok_inj, ok, err, Exec, pure, ◌>>=◌, ◌>>◌}
use oracle_patching.Exec.Triple.{Triple, Meets, Triple-pure, Triple-weaken, Triple-bind}
use oracle_patching.Queue.Store.{
  Status, Job, File, Queue, Env, Action, doc, read_file, known, put_job, insert_name, sort_names,
  names, read_all,
}
use oracle_patching.Queue.Claim.{is_active, is_busy, lapsed, expired, expire, expire_all}
use oracle_patching.Queue.Exclusion.{
  Stored, Stored-job_id, Stored-put, Stored-put_self, Stored-put_other, Exclusive,
  put_settled-Exclusive,
}
use oracle_patching.Queue.Exclusion.Workers.{expired-busy, node-expired, plan_id-expired}
use oracle_patching.Queue.Triples.{Triple-read_job, Triple-expire, job_id-expired}

abbrev before : String → String → Bool
before m n = str_ltb (m <> ".json") (n <> ".json")

mem-insert_name_self : (n : String) (ms : List String) → Memᴰ n (insert_name n ms)
unfolding insert_name
mem-insert_name_self n [] = Memᴰ.head refl
mem-insert_name_self n (m ∷ ms) = elim (Bool-cases (before m n)) [
  | inl t ↦ rw t (Memᴰ.tail (mem-insert_name_self n ms))
  | inr f ↦ rw f (Memᴰ.head refl)
]

mem-insert_name : (n k : String) (ms : List String) → Memᴰ k ms → Memᴰ k (insert_name n ms)
unfolding insert_name
mem-insert_name n k [] h = Memᴰ.tail h
mem-insert_name n k (m ∷ ms) h = elim (Bool-cases (before m n)) [
  | inl t ↦
      rw t
        (elim (mem-cases h) [ inl e ↦ Memᴰ.head e | inr r ↦ Memᴰ.tail (mem-insert_name n k ms r) ])
  | inr f ↦ rw f (Memᴰ.tail h)
]

mem-sort_names : (k : String) (ns : List String) → Memᴰ k ns → Memᴰ k (sort_names ns)
unfolding sort_names
mem-sort_names k [] h = h
mem-sort_names k (n ∷ ns) (Memᴰ.head e) =
    subst (λ x. Memᴰ x (insert_name n (sort_names ns))) (sym e)
      (mem-insert_name_self n (sort_names ns))
mem-sort_names k (n ∷ ns) (Memᴰ.tail h) =
    mem-insert_name n k (sort_names ns) (mem-sort_names k ns h)

read_file-none : (id : String) (job : Job) (f : Option File) → read_file id f ≡ ok job → f ≢ none
unfolding read_file
read_file-none id job none h = cc
read_file-none id job (some x) h = λ e. cc

-- Every stored job is found by its name in the directory.
pub mem-names : (q : Queue) (id : String) (job : Job) → Stored q id job → Memᴰ id (names q)
unfolding names
mem-names q id job h = elim (Option-cases (Dict.get id q.jobs)) [
  | inl e ↦ absurd (read_file-none id job (Dict.get id q.jobs) h e)
  | inr (f, e) ↦ mem-sort_names id (Dict.keys q.jobs) (Dict.mem-keys_of_get id f q.jobs e)
]

abbrev pub Reads : Queue → List String → List Job → Type 0
Reads q ns jobs =
    ((id : String) (job : Job) → Memᴰ id ns → Stored q id job → Memᴰ job jobs)
    × ((job : Job) → Memᴰ job jobs → Stored q job.job_id job)

Reads-cons :
    (q : Queue) (n : String) (ns : List String) (job : Job) (jobs : List Job)
    → Stored q n job
    → Reads q ns jobs
    → Reads q (n ∷ ns) (job ∷ jobs)
Reads-cons q n ns job jobs st r = (
  λ id a m s. elim (mem-cases m) [
    | inl e ↦ Memᴰ.head (ok_inj a job (sym s ∙ subst (λ x. Stored q x job) (sym e) st))
    | inr t ↦ Memᴰ.tail (r.0 id a t s)
  ],
  λ a m. elim (mem-cases m) [
    | inl e ↦
        subst (λ x. Stored q x.job_id x) (sym e)
          (subst (λ x. Stored q x job) (sym (Stored-job_id _ n job st)) st)
    | inr t ↦ r.1 a t
  ],
)

pub Triple-read_all :
    {R : Queue → Type 0} (P : Queue → Type 0)
    → ((q : Queue) → P q → R q)
    → (ns : List String) → Triple P (read_all ns) (λ jobs q. P q × Reads q ns jobs) R
unfolding read_all
Triple-read_all P fails [] =
    Triple-pure [] λ q p. (p, ((λ id job m s. elim m [ ]), (λ job m. elim m [ ])))
Triple-read_all P fails (n ∷ ns) =
    Triple-bind (λ job q. P q × Stored q n job) _ _
      (Triple-read_job fails n (λ job q p st. (p, st)))
      λ job.
        Triple-bind (λ jobs q. (P q × Stored q n job) × Reads q ns jobs) _ _
          (Triple-read_all (λ q. P q × Stored q n job) (λ q p. fails q p.0) ns)
          λ jobs. Triple-pure (job ∷ jobs) λ q h. (h.0.0, Reads-cons q n ns job jobs h.0.1 h.1)
