-- ===== src/Exec/Triple.antt =====
-- What an action meets: `Q` with its value where it returns, `R` where it raises. One rule for each
-- way to build an action.
use mathlib.Core.Path.{subst₂}
use oracle_patching.Prelude.{◌≡◌, refl, ap, Bool, true, false, if◌then◌else◌}
use oracle_patching.Exec.{
  Result, ok, err, Exec, pure, raise, lift, gets, modify, ensure, ◌>>=◌, ◌>>◌,
}

module _ {E S A : Type 0} where
  abbrev pub Meets : (A → S → Type 0) → (S → Type 0) → Result E A × S → Type 0
  Meets Q R (ok a, s) = Q a s
  Meets Q R (err e, s) = R s

  ok_value : (b a : A) (s t : S) → ◌≡◌ {A = Result E A × S} (ok b, s) (ok a, t) → b ≡ a
  ok_value b a s t e = cc

  -- From a state with `P`.
  pub record Triple (P : S → Type 0) (m : Exec E S A) (Q : A → S → Type 0) (R : S → Type 0)
      : Type 0 where
    pub at : (s : S) → P s → Meets Q R (m s)

  Meets-ok :
      (Q : A → S → Type 0) (R : S → Type 0) (x : Result E A × S) (a : A) (t : S)
      → Meets Q R x
      → x ≡ (ok a, t)
      → Q a t
  Meets-ok Q R (ok b, s) a t h e =
      subst₂ Q (ok_value b a s t e) (ap (λ (x : Result E A × S). x.1) e) h
  Meets-ok Q R (err x, s) a t h e = cc

  -- What a call that returned meets.
  pub Triple-ok :
      {P : S → Type 0} (Q : A → S → Type 0) {R : S → Type 0} (m : Exec E S A) (s : S) {a : A}
      {t : S}
      → Triple P m Q R
      → P s
      → m s ≡ (ok a, t)
      → Q a t
  Triple-ok Q {R} m s {a} {t} h p e = Meets-ok Q R (m s) a t (h.at s p) e

  Meets-const : (R : S → Type 0) (x : Result E A × S) → R x.1 → Meets (λ _. R) R x
  Meets-const R (ok a, s) h = h
  Meets-const R (err e, s) h = h

  const-Meets : (R : S → Type 0) (x : Result E A × S) → Meets (λ _. R) R x → R x.1
  const-Meets R (ok a, s) h = h
  const-Meets R (err e, s) h = h

  -- A condition that an action keeps, returning or raising.
  pub Triple-keeps :
      {R : S → Type 0} (m : Exec E S A) → ((s : S) → R s → R (m s).1) → Triple R m (λ _. R) R
  Triple-keeps {R} m h = record { at = λ s p. Meets-const R (m s) (h s p) }

  pub keeps-Triple :
      {R : S → Type 0} (m : Exec E S A) (s : S) → Triple R m (λ _. R) R → R s → R (m s).1
  keeps-Triple {R} m s t p = const-Meets R (m s) (t.at s p)

  pub Triple-pure :
      {P R : S → Type 0} {Q : A → S → Type 0} (a : A)
      → ((s : S) → P s → Q a s)
      → Triple P (pure a) Q R
  unfolding pure
  Triple-pure a h = record { at = h }

  pub Triple-raise :
      {P R : S → Type 0} {Q : A → S → Type 0} (e : E)
      → ((s : S) → P s → R s)
      → Triple P (raise e) Q R
  unfolding raise
  Triple-raise e h = record { at = h }

  -- The rest may use what the result was.
  pub Triple-lift :
      {P R : S → Type 0} {Q : A → S → Type 0} (r : Result E A)
      → ((a : A) → r ≡ ok a → (s : S) → P s → Q a s)
      → ((s : S) → P s → R s)
      → Triple P (lift r) Q R
  unfolding lift
  Triple-lift (ok a) h k = record { at = h a refl }
  Triple-lift (err e) h k = record { at = k }

  pub Triple-gets :
      {P R : S → Type 0} {Q : A → S → Type 0} (f : S → A)
      → ((s : S) → P s → Q (f s) s)
      → Triple P (gets f) Q R
  unfolding gets
  Triple-gets f h = record { at = h }

  pub Triple-if :
      {P R : S → Type 0} {Q : A → S → Type 0} (b : Bool) (m n : Exec E S A)
      → (b ≡ true → Triple P m Q R)
      → (b ≡ false → Triple P n Q R)
      → Triple P (if b then m else n) Q R
  Triple-if true m n h k = h refl
  Triple-if false m n h k = k refl

  pub Triple-weaken :
      {P P' R R' : S → Type 0} {Q Q' : A → S → Type 0} (m : Exec E S A)
      → Triple P' m Q' R'
      → ((s : S) → P s → P' s)
      → ((a : A) (s : S) → Q' a s → Q a s)
      → ((s : S) → R' s → R s)
      → Triple P m Q R
  Triple-weaken {R} {R'} {Q} {Q'} m t p q r = record { at = λ s h. go (m s) (t.at s (p s h)) }
    where
      go : (x : Result E A × S) → Meets Q' R' x → Meets Q R x
      go (ok a, s) h = q a s h
      go (err e, s) h = r s h

  with-Meets :
      {F : Type 0} (R : S → Type 0) (Q : A → S → Type 0) (x : Result E A × S)
      → F
      → Meets Q R x
      → Meets (λ a s. F × Q a s) R x
  with-Meets R Q (ok a, s) f h = (f, h)
  with-Meets R Q (err e, s) f h = h

  -- A fact that the condition gives before the action and that does not mention the state.
  pub Triple-with :
      {F : Type 0} {P R : S → Type 0} (Q : A → S → Type 0) (m : Exec E S A)
      → ((s : S) → P s → F)
      → Triple P m Q R
      → Triple P m (λ a s. F × Q a s) R
  Triple-with {R} Q m f t = record { at = λ s p. with-Meets R Q (m s) (f s p) (t.at s p) }

module _ {E S A : Type 0} where
  both-Meets :
      (Q Q' : A → S → Type 0) (R R' : S → Type 0) (x : Result E A × S)
      → Meets Q R x
      → Meets Q' R' x
      → Meets (λ a s. Q a s × Q' a s) R x
  both-Meets Q Q' R R' (ok a, s) h k = (h, k)
  both-Meets Q Q' R R' (err e, s) h k = h

  -- Two things that the value meets.
  pub Triple-both :
      {P P' R R' : S → Type 0} {Q Q' : A → S → Type 0} (m : Exec E S A)
      → Triple P m Q R
      → Triple P' m Q' R'
      → ((s : S) → P s → P' s)
      → Triple P m (λ a s. Q a s × Q' a s) R
  Triple-both {R} {R'} {Q} {Q'} m t u p = record {
    at = λ s h. both-Meets Q Q' R R' (m s) (t.at s h) (u.at s (p s h));
  }

  -- A fact that holds from here on.
  pub Triple-given :
      {F : Type 0} {P R : S → Type 0} {Q : A → S → Type 0} (m : Exec E S A)
      → (F → Triple P m Q R)
      → Triple (λ s. F × P s) m Q R
  Triple-given m t = record { at = λ s p. (t p.0).at s p.1 }

module _ {E S : Type 0} where
  pub Triple-modify :
      {P R : S → Type 0} {Q : Unit {0} → S → Type 0} (f : S → S)
      → ((s : S) → P s → Q tt (f s))
      → Triple {E = E} P (modify f) Q R
  unfolding modify
  Triple-modify f h = record { at = h }

  pub Triple-ensure :
      {P R : S → Type 0} {Q : Unit {0} → S → Type 0} (b : Bool) (e : E)
      → (b ≡ true → (s : S) → P s → Q tt s)
      → ((s : S) → P s → R s)
      → Triple P (ensure b e) Q R
  unfolding ensure
  Triple-ensure true e h k = record { at = h refl }
  Triple-ensure false e h k = record { at = k }

module _ {E S B : Type 0} where
  -- The test of a guard is known from there on.
  pub Triple-guard :
      {P R : S → Type 0} {Q : B → S → Type 0} (b : Bool) (e : E) (m : Exec E S B)
      → ((s : S) → P s → R s)
      → (b ≡ true → Triple P m Q R)
      → Triple P (ensure b e >> m) Q R
  unfolding ◌>>=◌
  Triple-guard true e m k h = record { at = (h refl).at }
  Triple-guard false e m k h = record { at = k }

  pub Triple-modify-then :
      {P R : S → Type 0} {Q : B → S → Type 0} (P' : S → Type 0) (f : S → S) (m : Exec E S B)
      → ((s : S) → P s → P' (f s))
      → Triple P' m Q R
      → Triple P (modify f >> m) Q R
  unfolding ◌>>=◌
  Triple-modify-then P' f m k h = record { at = λ s p. h.at (f s) (k s p) }

module _ {E S A B : Type 0} where
  -- The value of a result is known from there on.
  pub Triple-lift-then :
      {P R : S → Type 0} {Q : B → S → Type 0} (r : Result E A) (f : A → Exec E S B)
      → ((s : S) → P s → R s)
      → ((a : A) → r ≡ ok a → Triple P (f a) Q R)
      → Triple P (lift r >>= f) Q R
  unfolding ◌>>=◌
  Triple-lift-then (ok a) f k h = record { at = (h a refl).at }
  Triple-lift-then (err e) f k h = record { at = k }

  continue-Meets :
      {R : S → Type 0} (Q : A → S → Type 0) {Q' : B → S → Type 0} (f : A → Exec E S B)
      → ((a : A) → Triple (Q a) (f a) Q' R)
      → (x : Result E A × S) → Meets Q R x
      → Meets Q' R (oracle_patching.Exec.continue f x)
  continue-Meets Q f k (ok a, s) h = (k a).at s h
  continue-Meets Q f k (err e, s) h = h

  pub Triple-bind :
      {P R : S → Type 0} (Q : A → S → Type 0) {Q' : B → S → Type 0} (m : Exec E S A)
      (f : A → Exec E S B)
      → Triple P m Q R
      → ((a : A) → Triple (Q a) (f a) Q' R)
      → Triple P (m >>= f) Q' R
  unfolding ◌>>=◌
  Triple-bind Q m f h k = record { at = λ s p. continue-Meets Q f k (m s) (h.at s p) }

module _ {E S A : Type 0} where
  -- A call that returned, kept as a fact.
  pub Triple-returned :
      (m : Exec E S A)
      → Triple (λ s. Unit {0}) m (λ a t. (s : S) × (m s ≡ (ok a, t))) (λ s. Unit {0})
  Triple-returned m = record { at = λ s p. go s (m s) refl }
    where
      go :
          (s : S) (x : Result E A × S)
          → m s ≡ x
          → Meets (λ a t. (u : S) × (m u ≡ (ok a, t))) (λ t. Unit {0}) x
      go s (ok a, t) h = (s, h)
      go s (err e, t) h = tt
