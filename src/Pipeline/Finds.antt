-- ===== src/Pipeline/Finds.antt =====
-- Rules for what a reader of the evidence finds out: the evidence of the host stays as it is, and the
-- value that comes back has a property.
use Prim.Native.String.{String}
use oracle_patching.Prelude.{◌≡◌, Bool, true, string_eq, nat_eq}
use oracle_patching.Exec.{pure, ensure, ◌>>=◌, ◌>>◌}
use oracle_patching.Exec.Triple.{Triple, Triple-bind, Triple-pure, Triple-guard, Triple-given}
use oracle_patching.World.{World, Error, Action}
use oracle_patching.World.Quiet.{Quiet, Triple-Quiet}
use oracle_patching.Pipeline.Layers.{Shelf}

module _ (host_id : String) (f : Shelf) where
  -- The evidence of the host is still `f`.
  abbrev pub Still : World → Type 0
  Still w = w.files host_id ≡ f

  pub still : {A : Type 0} (m : Action A) → Quiet m → Triple Still m (λ _. Still) Still
  still m q = Triple-Quiet (λ fs. fs host_id ≡ f) m q

  -- An action that reads, and what its value has.
  abbrev pub Finds : {A : Type 0} → Action A → (A → Type 0) → Type 0
  Finds m F = Triple Still m (λ a w. F a × Still w) Still

module _ {host_id : String} {f : Shelf} where
  pub quiet_then :
      {A B : Type 0} (F : B → Type 0) (m : Action A) (k : A → Action B)
      → Quiet m
      → ((a : A) → Finds host_id f (k a) F)
      → Finds host_id f (m >>= k) F
  quiet_then F m k q rest = Triple-bind (λ _. Still host_id f) m k (still host_id f m q) rest

  pub finds_then :
      {A B : Type 0} (G : A → Type 0) (F : B → Type 0) (m : Action A) (k : A → Action B)
      → Finds host_id f m G
      → ((a : A) → G a → Finds host_id f (k a) F)
      → Finds host_id f (m >>= k) F
  finds_then G F m k found rest =
      Triple-bind (λ a w. G a × Still host_id f w) m k found λ a. Triple-given (k a) (rest a)

  pub guard_then :
      {B : Type 0} (F : B → Type 0) (b : Bool) (e : Error) (m : Action B)
      → (b ≡ true → Finds host_id f m F)
      → Finds host_id f (ensure b e >> m) F
  guard_then F b e m rest = Triple-guard b e m (λ w p. p) rest

  pub returns : {A : Type 0} (F : A → Type 0) (a : A) → F a → Finds host_id f (pure a) F
  returns F a x = Triple-pure a λ w p. (x, p)
