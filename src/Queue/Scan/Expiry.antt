-- ===== src/Queue/Scan/Expiry.antt =====
-- The loop of `_expire` in `claim`: after it the jobs in memory are still those in the files.
use Prim.Native.String.{String}
use mathlib.Core.List.{Memᴰ}
use oracle_patching.Prelude.{
  ℕ, ◌≡◌, ◌≢◌, refl, sym, subst, ap, ◌∙◌, ◌⊎◌, inl, inr, true, false, List, [], ◌∷◌, arith, eq_iff,
  ◌==◌, string_eq, Bool-cases,
}
use oracle_patching.Exec.{ok_inj}
use oracle_patching.Exec.Triple.{Triple, Triple-pure, Triple-bind}
use oracle_patching.Queue.Store.{Job, Queue, Env, known, put_job, names}
use oracle_patching.Queue.Claim.{is_active, is_busy, lapsed, expired, expire_all}
use oracle_patching.Queue.Exclusion.{
  Stored, Stored-job_id, Stored-put, Stored-put_self, Stored-put_other, Exclusive,
  put_settled-Exclusive,
}
use oracle_patching.Queue.Exclusion.Workers.{expired-busy, node-expired, plan_id-expired}
use oracle_patching.Queue.Scan.{Reads, mem-names}
use oracle_patching.Queue.Triples.{Triple-expire, job_id-expired}

-- What stands in the file of a job in memory: the job, or what its lost lease has made of it.
abbrev pub Current : ℕ → Job → Job → Type 0
Current now job b = (b ≡ job) ⊎ (b ≡ expired now job)

-- The stored jobs are those of `Held`.
pub record Agrees (now : ℕ) (Held : Job → Type 0) (q : Queue) : Type 0 where
  pub listed : (id : String) (job : Job) → Stored q id job → Held job
  pub sound : (job : Job) → Held job → (b : Job) × Stored q job.job_id b × Current now job b

pub Agrees-of_Reads :
    (now : ℕ) (q : Queue) (jobs : List Job)
    → Reads q (names q) jobs
    → Agrees now (λ job. ⊥ ⊎ Memᴰ job jobs) q
Agrees-of_Reads now q jobs r = record {
  listed = λ id job st. inr (r.0 id job (mem-names q id job st) st);
  sound = λ job h. elim h [ inl x ↦ absurd x | inr m ↦ (job, r.1 job m, inl refl) ];
}

Agrees-iff :
    {H K : Job → Type 0} (now : ℕ) (q : Queue)
    → ((job : Job) → H job → K job)
    → ((job : Job) → K job → H job)
    → Agrees now H q
    → Agrees now K q
Agrees-iff now q f g a = record {
  listed = λ id job st. f job (a.listed id job st);
  sound = λ job k. a.sound job (g job k);
}

not_lapsed-expired : (now : ℕ) (job : Job) → lapsed now (expired now job) ≡ false
unfolding lapsed expired is_active
not_lapsed-expired now job = ground arith

expired_idem : (now : ℕ) (job : Job) → expired now (expired now job) ≡ expired now job
unfolding expired lapsed is_active
expired_idem now job = ground arith

-- Two jobs in memory with one file: what the loss of the first one's lease makes of the file is
-- current for the second.
Current-expired :
    (now : ℕ) (a c b : Job) → Current now a b → Current now c b → Current now c (expired now a)
Current-expired now a c b (inl x) (inl y) = inr (ap (expired now) (sym x ∙ y))
Current-expired now a c b (inl x) (inr y) = inr (ap (expired now) (sym x ∙ y) ∙ expired_idem now c)
Current-expired now a c b (inr x) (inl y) = inl (sym x ∙ y)
Current-expired now a c b (inr x) (inr y) = inr (sym x ∙ y)

known-expired :
    (now : ℕ) (job : Job) → lapsed now job ≡ true → known (expired now job).status ≡ true
unfolding expired lapsed is_active known
known-expired now job h = ground arith

busy-expired :
    (now : ℕ) (job : Job) → lapsed now job ≡ true → is_busy (expired now job).status ≡ true
unfolding expired lapsed is_active is_busy
busy-expired now job h = ground arith

-- The write of a lost lease keeps files and memory in step.
lapse-Agrees :
    {H K : Job → Type 0} (now : ℕ) (a : Job) (q : Queue)
    → H a
    → lapsed now a ≡ true
    → ((job : Job) → H job → job.job_id ≢ a.job_id → K job)
    → ((job : Job) → K job → (job ≡ expired now a) ⊎ H job)
    → K (expired now a)
    → Agrees now H q
    → Agrees now K (put_job a.job_id (expired now a) q)
lapse-Agrees {H} {K} now a q ha l keep back new agrees = record {
  listed = λ id job st. elim (Stored-put a.job_id id (expired now a) job q st) [
    | inl (e, same) ↦ subst K (sym same) new
    | inr (n, old) ↦
        keep job (agrees.listed id job old) (λ e. n (sym e ∙ Stored-job_id _ id job old))
  ];
  sound = λ job k. elim (back job k) [
    | inl e ↦ (
      expired now a,
      subst (λ x. Stored (put_job a.job_id (expired now a) q) x (expired now a))
          (sym (ap (λ (j : Job). j.job_id) e ∙ job_id-expired now a)) here,
      inl (sym e),
    )
    | inr h ↦ elim (Bool-cases (a.job_id == job.job_id)) [
      | inl t ↦
          let e : a.job_id ≡ job.job_id = (eq_iff _ _).0 t in
          let (b, sb, cb) = agrees.sound job h in
          let (c, sc, cc') = agrees.sound a ha in
          let same : c ≡ b = ok_inj c b (sym sc ∙ subst (λ x. Stored q x b) (sym e) sb) in
          (
            expired now a,
            subst (λ x. Stored (put_job a.job_id (expired now a) q) x (expired now a)) e here,
            Current-expired now a job b (subst (Current now a) same cc') cb,
          )
      | inr f ↦
          let (b, sb, cb) = agrees.sound job h in
          (
            b,
            Stored-put_other a.job_id job.job_id (expired now a) b q
                (λ e. cc ((eq_iff a.job_id job.job_id).1 e)) sb,
            cb,
          )
    ]
  ];
}
  where
    here : Stored (put_job a.job_id (expired now a) q) a.job_id (expired now a)
    here = Stored-put_self a.job_id (expired now a) q (job_id-expired now a) (known-expired now a l)

lapse-Exclusive :
    {H : Job → Type 0} (now : ℕ) (a : Job) (q : Queue)
    → H a
    → lapsed now a ≡ true
    → Agrees now H q
    → Exclusive q
    → Exclusive (put_job a.job_id (expired now a) q)
lapse-Exclusive now a q ha l agrees ex =
    let (b, st, c) = agrees.sound a ha in
    put_settled-Exclusive a.job_id b (expired now a) q ex st
      (elim c [
        | inl e ↦ node-expired now a ∙ ap (λ (j : Job). j.node) (sym e)
        | inr e ↦ ap (λ (j : Job). j.node) (sym e)
      ])
      (elim c [
        | inl e ↦ plan_id-expired now a ∙ ap (λ (j : Job). j.plan_id) (sym e)
        | inr e ↦ ap (λ (j : Job). j.plan_id) (sym e)
      ])
      (λ x. elim c [
        | inl e ↦ ap (λ (j : Job). is_busy j.status) e ∙ expired-busy now a l
        | inr e ↦ ap (λ (j : Job). is_busy j.status) e ∙ busy-expired now a l
      ])

module _ {H : Type 0} {x a : Job} {xs : List Job} where
  shift : H ⊎ Memᴰ x (a ∷ xs) → (H ⊎ (x ≡ a)) ⊎ Memᴰ x xs
  shift (inl h) = inl (inl h)
  shift (inr (Memᴰ.head e)) = inl (inr e)
  shift (inr (Memᴰ.tail m)) = inr m

  unshift : (H ⊎ (x ≡ a)) ⊎ Memᴰ x xs → H ⊎ Memᴰ x (a ∷ xs)
  unshift (inl (inl h)) = inl h
  unshift (inl (inr e)) = inr (Memᴰ.head e)
  unshift (inr m) = inr (Memᴰ.tail m)

  other_than : {b : Job} → x ≢ a → H ⊎ Memᴰ x (a ∷ xs) → (H ⊎ (x ≡ b)) ⊎ Memᴰ x xs
  other_than n (inl h) = inl (inl h)
  other_than n (inr (Memᴰ.head e)) = absurd (n e)
  other_than n (inr (Memᴰ.tail m)) = inr m

  back : {b : Job} → (H ⊎ (x ≡ b)) ⊎ Memᴰ x xs → (x ≡ b) ⊎ (H ⊎ Memᴰ x (a ∷ xs))
  back (inl (inl h)) = inr (inl h)
  back (inl (inr e)) = inl e
  back (inr m) = inr (inr (Memᴰ.tail m))

abbrev pub Scanned : ℕ → (Job → Type 0) → List Job → Queue → Type 0
Scanned now H jobs q = Exclusive q × Agrees now (λ job. H job ⊎ Memᴰ job jobs) q

-- The loop of `_expire` over the jobs in memory; `H` are those that it has passed.
pub Triple-expire_all :
    (env : Env) (H : Job → Type 0) (jobs : List Job)
    → Triple (Scanned env.now H jobs) (expire_all env jobs) (Scanned env.now H) Exclusive
unfolding expire_all
Triple-expire_all env H [] = Triple-pure [] (λ q h. h)
Triple-expire_all env H (a ∷ jobs) =
    Triple-bind (λ r q. Scanned env.now (λ x. H x ⊎ (x ≡ r.0)) jobs q) _ _
      (Triple-expire (λ q h. h.0) env a
        (λ q h f. (h.0, Agrees-iff env.now q (λ x. shift) (λ x. unshift) h.1))
        (λ q h l.
          subst
            (λ x.
              Scanned env.now (λ y. H y ⊎ (y ≡ expired env.now a)) jobs
                (put_job x (expired env.now a) q))
            (sym (job_id-expired env.now a))
            (
              lapse-Exclusive env.now a q (inr (Memᴰ.head refl)) l h.1 h.0,
              lapse-Agrees env.now a q (inr (Memᴰ.head refl)) l
                  (λ x k n. other_than (λ e. n (ap (λ (j : Job). j.job_id) e)) k) (λ x. back)
                  (inl (inr refl)) h.1,
            )))
      λ r.
        Triple-bind (λ jobs' q. Scanned env.now (λ x. H x ⊎ (x ≡ r.0)) jobs' q) _ _
          (Triple-expire_all env (λ x. H x ⊎ (x ≡ r.0)) jobs)
          λ jobs'.
            Triple-pure (r.0 ∷ jobs')
              λ q h. (h.0, Agrees-iff env.now q (λ x. unshift) (λ x. shift) h.1)
