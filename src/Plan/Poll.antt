-- ===== src/Plan/Poll.antt =====
-- The poll loop of `_run_detached_remote` of webapp/planctl.py, on the answers of the polls in their
-- order.
use Prim.Native.String.{String}
use mathlib.Core.List.{Memᴰ}
use oracle_patching.Prelude.{
  ℕ, ◌+◌, ◌≡◌, refl, sym, ap, ◌∙◌, false, none, some, List, [], ◌∷◌, ◌++◌, ◌==◌, string_eq, leb,
  ltb, if◌then◌else◌, Bool-cases, inl, inr, eq_iff, mem-cases,
}
use oracle_patching.Prelude.Text.{codes, strip, digits}

-- A poll that ssh failed, or its lines and the clock after it.
pub data Poll : Type 0 where
  failed : Poll
  answered : List String → ℕ → Poll

-- How the polling ends; `polling` where it goes on after all the answers.
pub data PollEnd : Type 0 where
  exited : ℕ → PollEnd
  lost_contact overdue vanished terminated polling : PollEnd

-- LIVE_POLL_MAX_CONSECUTIVE_SSH_FAILURES
abbrev pub max_failures : ℕ
max_failures = 6

unfoldable pub first_line : List String → String
first_line [] = ""
first_line (l ∷ ls) = l

-- The exit status on the second line, which `echo $?` wrote; 1 where it is none.
unfoldable pub rc_of : List String → ℕ
unfolding codes strip digits
rc_of [] = 1
rc_of (l ∷ []) = 1
rc_of (l ∷ rc ∷ ls) = elim (codes (strip rc)) [
  | [] ↦ 1
  | c ∷ cs ↦ elim (digits 0 (c ∷ cs)) [ none ↦ 1 | some n ↦ n ]
]

unfoldable pub after_answer : (deadline : ℕ) → List String → ℕ → PollEnd → PollEnd
unfolding first_line rc_of
after_answer deadline lines now rest =
    if first_line lines == "RC"
    then exited (rc_of lines)
    else if first_line lines == "RUNNING"
    then (if ltb deadline now then overdue else rest)
    else if first_line lines == "MISSING"
    then vanished
    else terminated

unfoldable pub poll_loop : (deadline failures : ℕ) → List Poll → PollEnd
unfolding after_answer
poll_loop deadline failures [] = polling
poll_loop deadline failures (failed ∷ ps) =
    let rest = poll_loop deadline (failures + 1) ps in
    if leb max_failures (failures + 1) then lost_contact else rest
poll_loop deadline failures (answered lines now ∷ ps) =
    let rest = poll_loop deadline 0 ps in after_answer deadline lines now rest

-- Before the end the executor was running at every answer, in time.
abbrev pub Waited : (deadline : ℕ) → List Poll → Type 0
Waited deadline ps =
    (lines : List String) (now : ℕ)
    → Memᴰ (answered lines now) ps
    → (first_line lines ≡ "RUNNING") × (ltb deadline now ≡ false)

pub record Exited (deadline : ℕ) (ps : List Poll) (rc : ℕ) : Type 0 where
  pub earlier : List Poll
  pub lines : List String
  pub now : ℕ
  pub later : List Poll
  pub split : ps ≡ earlier ++ (answered lines now ∷ later)
  pub waited : Waited deadline earlier
  pub marked : first_line lines ≡ "RC"
  pub status : rc ≡ rc_of lines

exited_inj : (a b : ℕ) → ◌≡◌ {A = PollEnd} (exited a) (exited b) → a ≡ b
exited_inj a b h = cc

answered_inj :
    (l m : List String) (a b : ℕ) → ◌≡◌ {A = Poll} (answered l a) (answered m b) → (l ≡ m) × (a ≡ b)
answered_inj l m a b h = (cc, cc)

later-Exited :
    (deadline : ℕ) (p : Poll) (ps : List Poll) (rc : ℕ)
    → ((lines : List String) (now : ℕ)
        → answered lines now ≡ p
        → (first_line lines ≡ "RUNNING") × (ltb deadline now ≡ false))
    → Exited deadline ps rc
    → Exited deadline (p ∷ ps) rc
later-Exited deadline p ps rc running e = record {
  earlier = p ∷ e.earlier;
  lines = e.lines;
  now = e.now;
  later = e.later;
  split = ap (λ l. p ∷ l) e.split;
  waited = λ lines now m. elim (mem-cases m) [
    | inl same ↦ running lines now same
    | inr n ↦ e.waited lines now n
  ];
  marked = e.marked;
  status = e.status;
}

-- A polling that ends with an exit status, whatever polls failed before: an answer carries the mark of
-- the end and this status, and at every answer before it the executor was running, in time.
pub poll_loop-Exited :
    (deadline failures rc : ℕ) (ps : List Poll)
    → poll_loop deadline failures ps ≡ exited rc
    → Exited deadline ps rc
unfolding poll_loop after_answer
poll_loop-Exited deadline failures rc [] h = cc
poll_loop-Exited deadline failures rc (failed ∷ ps) h =
    elim (Bool-cases (leb max_failures (failures + 1))) [
      | inl t ↦ absurd (cc (rw t at h))
      | inr f ↦
          later-Exited deadline failed ps rc (λ lines now e. cc)
            (poll_loop-Exited deadline (failures + 1) rc ps (rw f at h))
    ]
poll_loop-Exited deadline failures rc (answered lines now ∷ ps) h =
    elim (Bool-cases (first_line lines == "RC")) [
      | inl t ↦ record {
        earlier = [];
        lines = lines;
        now = now;
        later = ps;
        split = refl;
        waited = λ l n m. elim m [ ];
        marked = (eq_iff _ _).0 t;
        status = sym (exited_inj (rc_of lines) rc (rw t at h));
      }
      | inr not_end ↦ elim (Bool-cases (first_line lines == "RUNNING")) [
        | inl t ↦ elim (Bool-cases (ltb deadline now)) [
          | inl late ↦ absurd (cc (rw (not_end, t, late) at h))
          | inr in_time ↦
              later-Exited deadline (answered lines now) ps rc
                (λ l n e.
                  let (same, at) = answered_inj l lines n now e in
                  (ap first_line same ∙ (eq_iff _ _).0 t, ap (ltb deadline) at ∙ in_time))
                (poll_loop-Exited deadline 0 rc ps (rw (not_end, t, in_time) at h))
        ]
        | inr f ↦ elim (Bool-cases (first_line lines == "MISSING")) [
          | inl m ↦ absurd (cc (rw (not_end, f, m) at h))
          | inr d ↦ absurd (cc (rw (not_end, f, d) at h))
        ]
      ]
    ]
