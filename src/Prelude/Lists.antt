-- ===== src/Prelude/Lists.antt =====
-- Lists measured by native numbers, and Boolean searches that run.
use Prim.Native.Nat.{ℕ, zero, suc, ◌+◌, ◌-◌, ◌≤◌}
use mathlib.Core.Option.{Option, none, some}
use mathlib.Core.Path.{◌≡◌, refl}
use mathlib.Core.Bool.{Bool, true, false, ◌&&◌, ◌||◌}
use mathlib.Core.Logic.{◌⊎◌, inl, inr}
use mathlib.Core.List.{List, [], ◌∷◌, ◌++◌, Memᴰ}
use native.Mathlib.Omega.{arith}
use oracle_patching.Prelude.Tests.{if◌then◌else◌, Bool-cases}

module _ {ℓ} {A : Type ℓ} where
  abbrev pub length : List A → ℕ
  length [] = 0
  length (x ∷ xs) = suc (length xs)

  pub length-append : (xs ys : List A) → length (xs ++ ys) ≡ length xs + length ys
  length-append [] ys = omega arith
  length-append (x ∷ xs) ys = omega (arith, length-append xs ys)

  -- `xs[:n]`
  unfoldable pub take : ℕ → List A → List A
  take n [] = []
  take zero (x ∷ xs) = []
  take (suc n) (x ∷ xs) = x ∷ take n xs

  -- `xs[n:]`
  unfoldable pub drop : ℕ → List A → List A
  drop n [] = []
  drop zero (x ∷ xs) = x ∷ xs
  drop (suc n) (x ∷ xs) = drop n xs

  -- `xs[-n:]`, for `n` above 0
  unfoldable pub take_last : ℕ → List A → List A
  unfolding drop
  take_last n xs = drop (length xs - n) xs

  -- `xs[-1]`
  unfoldable pub last : List A → Option A
  last [] = none
  last (x ∷ []) = some x
  last (x ∷ y ∷ ys) = last (y ∷ ys)

  length-drop : (n : ℕ) (xs : List A) → length (drop n xs) ≡ length xs - n
  unfolding drop
  length-drop n [] = omega arith
  length-drop zero (x ∷ xs) = omega arith
  length-drop (suc n) (x ∷ xs) = omega (arith, length-drop n xs)

  pub length-take_last : (n : ℕ) (xs : List A) → length (take_last n xs) ≤ n
  unfolding take_last
  length-take_last n xs = omega (arith, length-drop (length xs - n) xs)

  -- `not xs`
  unfoldable pub is_nil : List A → Bool
  is_nil [] = true
  is_nil (x ∷ xs) = false

  unfoldable pub any : (A → Bool) → List A → Bool
  any p [] = false
  any p (x ∷ xs) = p x || any p xs

  unfoldable pub all : (A → Bool) → List A → Bool
  all p [] = true
  all p (x ∷ xs) = p x && all p xs

  -- `[x for x in xs if p(x)]`
  unfoldable pub select : (A → Bool) → List A → List A
  select p [] = []
  select p (x ∷ xs) = let rest = select p xs in if p x then x ∷ rest else rest

  pub mem-select :
      (p : A → Bool) (xs : List A) (a : A) → Memᴰ a xs → p a ≡ true → Memᴰ a (select p xs)
  unfolding select
  mem-select p [] a m h = elim m [ ]
  mem-select p (x ∷ xs) a (Memᴰ.head e) h = rw (← e, h) (Memᴰ.head refl)
  mem-select p (x ∷ xs) a (Memᴰ.tail m) h = elim (Bool-cases (p x)) [
    | inl t ↦ rw t (Memᴰ.tail (mem-select p xs a m h))
    | inr f ↦ rw f (mem-select p xs a m h)
  ]

  pub mem-cases : {a x : A} {xs : List A} → Memᴰ a (x ∷ xs) → (a ≡ x) ⊎ Memᴰ a xs
  mem-cases (Memᴰ.head e) = inl e
  mem-cases (Memᴰ.tail m) = inr m

  pub any-eq-false :
      (p : A → Bool) (xs : List A) (a : A) → any p xs ≡ false → Memᴰ a xs → p a ≡ false
  unfolding any
  any-eq-false p [] a h m = elim m [ ]
  any-eq-false p (x ∷ xs) a h (Memᴰ.head e) = ground (arith, e)
  any-eq-false p (x ∷ xs) a h (Memᴰ.tail m) = any-eq-false p xs a (ground arith) m

  pub all-eq-true : (p : A → Bool) (xs : List A) (a : A) → all p xs ≡ true → Memᴰ a xs → p a ≡ true
  unfolding all
  all-eq-true p [] a h m = elim m [ ]
  all-eq-true p (x ∷ xs) a h (Memᴰ.head e) = ground (arith, e)
  all-eq-true p (x ∷ xs) a h (Memᴰ.tail m) = all-eq-true p xs a (ground arith) m

  pub select-mem :
      (p : A → Bool) (xs : List A) (a : A) → Memᴰ a (select p xs) → Memᴰ a xs × (p a ≡ true)
  unfolding select
  select-mem p [] a m = elim m [ ]
  select-mem p (x ∷ xs) a m = elim (Bool-cases (p x)) [
    | inl t ↦ elim (mem-cases (rw t at m)) [
      | inl e ↦ (Memᴰ.head e, rw e t)
      | inr m' ↦ let (found, h) = select-mem p xs a m' in (Memᴰ.tail found, h)
    ]
    | inr f ↦ let (found, h) = select-mem p xs a (rw f at m) in (Memᴰ.tail found, h)
  ]
