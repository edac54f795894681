-- ===== src/Prelude/Dict.antt =====
-- Python's `dict`, and a directory of files, with texts for keys. An update keeps the place.
use Prim.Native.String.{String}
use mathlib.Core.Path.{◌≡◌, refl, sym}
use mathlib.Core.Logic.{inl, inr}
use mathlib.Core.Option.{Option, none, some}
use mathlib.Core.List.{List, [], ◌∷◌, Memᴰ}
use native.Mathlib.Omega.{arith}
use text.Mathlib.TextEquality.{eq_iff}
use text.Mathlib.TextPositions.{eq_refl}
use oracle_patching.Prelude.Tests.{◌==◌, string_eq, if◌then◌else◌, Bool-cases}

module _ {ℓ} {V : Type ℓ} where
  -- `d.get(k)`
  unfoldable pub get : String → List (String × V) → Option V
  get k [] = none
  get k ((j, v) ∷ d) = if j == k then some v else get k d

  -- `d[k] = v`
  unfoldable pub put : String → V → List (String × V) → List (String × V)
  put k v [] = (k, v) ∷ []
  put k v ((j, w) ∷ d) = if j == k then (j, v) ∷ d else (j, w) ∷ put k v d

  unfoldable pub keys : List (String × V) → List String
  keys [] = []
  keys ((j, v) ∷ d) = j ∷ keys d

  pub get-put :
      (k j : String) (v : V) (d : List (String × V))
      → get j (put k v d) ≡ (if k == j then some v else get j d)
  unfolding get put
  get-put k j v [] = refl
  get-put k j v ((i, w) ∷ d) = ground (arith, eq_iff k j, eq_iff i k, eq_iff i j, get-put k j v d)

  pub get-nil : (k : String) → get k [] ≡ none
  unfolding get
  get-nil k = refl

  pub get-put_self : (k : String) (v : V) (d : List (String × V)) → get k (put k v d) ≡ some v
  get-put_self k v d = simp (get-put, eq_refl)

  pub mem-keys_of_get :
      (k : String) (v : V) (d : List (String × V)) → get k d ≡ some v → Memᴰ k (keys d)
  unfolding get keys
  mem-keys_of_get k v [] h = cc
  mem-keys_of_get k v ((j, w) ∷ d) h = elim (Bool-cases (j == k)) [
    | inl e ↦ Memᴰ.head (sym ((eq_iff j k).0 e))
    | inr n ↦ Memᴰ.tail (mem-keys_of_get k v d (ground arith))
  ]
