-- ===== src/Exec.antt =====
-- Functions that may raise return a `Result`; methods that write files and may raise are actions
-- of `Exec`. What was written before a raise stays written, so the state comes back beside the
-- error too.
pub mod Triple
use oracle_patching.Prelude.{◌≡◌, refl, Bool, true, false, Option, none, some}

pub data Result {ℓ κ} (E : Type ℓ) (A : Type κ) : Type (ℓ ⊔ κ) where
  ok : A → Result E A
  err : E → Result E A

pub ok_inj {ℓ κ} : {E : Type ℓ} {A : Type κ} (a b : A) → ◌≡◌ {A = Result E A} (ok a) (ok b) → a ≡ b
ok_inj a b h = cc

abbrev pub Exec : Type 0 → Type 0 → Type 0 → Type 0
Exec E S A = S → Result E A × S

module _ {E S A : Type 0} where
  unfoldable pub pure : A → Exec E S A
  pure a s = (ok a, s)

  unfoldable pub raise : E → Exec E S A
  raise e s = (err e, s)

  unfoldable pub lift : Result E A → Exec E S A
  lift r s = (r, s)

  unfoldable pub gets : (S → A) → Exec E S A
  gets f s = (ok (f s), s)

module _ {E S : Type 0} where
  unfoldable pub modify : (S → S) → Exec E S (Unit {0})
  modify f s = (ok tt, f s)

  -- `if not b: raise e`
  unfoldable pub ensure : Bool → E → Exec E S (Unit {0})
  ensure true e s = (ok tt, s)
  ensure false e s = (err e, s)

module _ {E S A B : Type 0} where
  abbrev pub continue : (A → Exec E S B) → Result E A × S → Result E B × S
  continue f (ok a, s) = f a s
  continue f (err e, s) = (err e, s)

  infixl 10 ◌>>=◌ ◌>>◌
  unfoldable pub ◌>>=◌ : Exec E S A → (A → Exec E S B) → Exec E S B
  unfolding pure raise lift gets modify ensure
  ◌>>=◌ m f s = continue f (m s)

  abbrev pub ◌>>◌ : Exec E S A → Exec E S B → Exec E S B
  m >> n = m >>= λ _. n

  continue-eq-ok :
      (f : A → Exec E S B) (r : Result E A × S) {b : B} {t : S}
      → continue f r ≡ (ok b, t)
      → (a : A) × (u : S) × (r ≡ (ok a, u)) × (f a u ≡ (ok b, t))
  continue-eq-ok f (ok a, u) h = (a, u, refl, h)
  continue-eq-ok f (err e, u) h = cc

  -- A bind that returns: the first part returned, and the second did from the state it left.
  pub >>=-eq-ok :
      (m : Exec E S A) (f : A → Exec E S B) (s : S) {b : B} {t : S}
      → (m >>= f) s ≡ (ok b, t)
      → (a : A) × (u : S) × (m s ≡ (ok a, u)) × (f a u ≡ (ok b, t))
  unfolding ◌>>=◌
  >>=-eq-ok m f s h = continue-eq-ok f (m s) h

  -- A part that raises ends the whole.
  pub >>=-err :
      (m : Exec E S A) (f : A → Exec E S B) (s : S) {e : E} {t : S}
      → m s ≡ (err e, t)
      → (m >>= f) s ≡ (err e, t)
  unfolding ◌>>=◌
  >>=-err m f s h = rw h

  -- A part that returns hands on its value and its state.
  pub >>=-ok :
      (m : Exec E S A) (f : A → Exec E S B) (s : S) (a : A) (t : S)
      → m s ≡ (ok a, t)
      → (m >>= f) s ≡ f a t
  unfolding ◌>>=◌
  >>=-ok m f s a t h = rw h refl

module _ {E S : Type 0} where
  pub ensure-true : (b : Bool) (e : E) (s : S) → b ≡ true → ensure b e s ≡ (ok tt, s)
  unfolding ensure
  ensure-true b e s h = rw h refl

module _ {E S B : Type 0} where
  -- A guard that let the rest return.
  pub guard-eq-ok :
      (b : Bool) (e : E) (m : Exec E S B) (s : S) {x : B} {t : S}
      → (ensure b e >> m) s ≡ (ok x, t)
      → (b ≡ true) × (m s ≡ (ok x, t))
  unfolding ◌>>=◌ ensure
  guard-eq-ok true e m s h = (refl, h)
  guard-eq-ok false e m s h = cc

module _ {E S A B : Type 0} where
  -- A result that let the rest return.
  pub lift-then-eq-ok :
      (r : Result E A) (f : A → Exec E S B) (s : S) {x : B} {t : S}
      → (lift r >>= f) s ≡ (ok x, t)
      → (a : A) × (r ≡ ok a) × (f a s ≡ (ok x, t))
  unfolding ◌>>=◌ lift
  lift-then-eq-ok (ok a) f s h = (a, refl, h)
  lift-then-eq-ok (err e) f s h = cc

-- The same for code that changes nothing.
module _ {E A B : Type 0} where
  abbrev pub and_then : Result E A → (A → Result E B) → Result E B
  and_then (ok a) f = f a
  and_then (err e) f = err e

  pub and_then-eq-ok :
      (r : Result E A) (f : A → Result E B) {b : B}
      → and_then r f ≡ ok b
      → (a : A) × (r ≡ ok a) × (f a ≡ ok b)
  and_then-eq-ok (ok a) f h = (a, refl, h)
  and_then-eq-ok (err e) f h = cc

module _ {E : Type 0} where
  -- `if not b: raise e`
  abbrev pub check : Bool → E → Result E (Unit {0})
  check true e = ok tt
  check false e = err e

  pub check-eq-ok : (b : Bool) (e : E) {u : Unit {0}} → check b e ≡ ok u → b ≡ true
  check-eq-ok true e h = refl
  check-eq-ok false e h = cc

module _ {E A : Type 0} where
  abbrev pub some_or : E → Option A → Result E A
  some_or e none = err e
  some_or e (some a) = ok a

  pub some_or-eq-ok : (e : E) (o : Option A) {a : A} → some_or e o ≡ ok a → o ≡ some a
  some_or-eq-ok e none h = cc
  some_or-eq-ok e (some a) h = cc
