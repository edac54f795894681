-- ===== src/World/Quiet.antt =====
-- Actions that leave the evidence files as they are, with a rule for each way to build one.
use oracle_patching.Prelude.{◌≡◌, refl, ◌∙◌, Bool, true, false, List, if◌then◌else◌}
use oracle_patching.Exec.{
  Result, ok, err, Exec, pure, raise, lift, gets, modify, ensure, ◌>>=◌, ◌>>◌,
}
use oracle_patching.Exec.Triple.{Triple, Triple-keeps}
use oracle_patching.Remote.Run.{RemoteError, Call}
use oracle_patching.World.{Files, World, Error, Action, over_ssh, over_ssh_as}

module _ {A : Type 0} where
  pub record Quiet (m : Action A) : Type 0 where
    pub same : (w : World) → (m w).1.files ≡ w.files

  pub Quiet-pure : (a : A) → Quiet (pure a)
  unfolding pure
  Quiet-pure a = record { same = λ w. refl }

  pub Quiet-raise : (e : Error) → Quiet (raise {A = A} e)
  unfolding raise
  Quiet-raise e = record { same = λ w. refl }

  pub Quiet-lift : (r : Result Error A) → Quiet (lift r)
  unfolding lift
  Quiet-lift r = record { same = λ w. refl }

  pub Quiet-gets : (f : World → A) → Quiet (gets f)
  unfolding gets
  Quiet-gets f = record { same = λ w. refl }

  pub Quiet-if : (b : Bool) (m n : Action A) → Quiet m → Quiet n → Quiet (if b then m else n)
  Quiet-if true m n km kn = km
  Quiet-if false m n km kn = kn

  ended-same :
      (w : World) (x : Result RemoteError A × List Call)
      → (oracle_patching.World.answered w x).1.files ≡ w.files
  ended-same w (ok a, calls) = refl
  ended-same w (err e, calls) = refl

  pub Quiet-over_ssh : (m : Exec RemoteError (List Call) A) → Quiet (over_ssh m)
  unfolding over_ssh
  Quiet-over_ssh m = record { same = λ w. ended-same w (m w.calls) }

  pub Quiet-over_ssh_as :
      (f : RemoteError → RemoteError) (m : Exec RemoteError (List Call) A) → Quiet (over_ssh_as f m)
  unfolding over_ssh_as
  Quiet-over_ssh_as f m = Quiet-over_ssh _

  -- What is true of the files stays true.
  pub Triple-Quiet :
      (Q : Files → Type 0) (m : Action A)
      → Quiet m
      → Triple (λ w. Q w.files) m (λ _ w. Q w.files) (λ w. Q w.files)
  Triple-Quiet Q m q =
      Triple-keeps m
        λ w h. oracle_patching.Prelude.subst Q (oracle_patching.Prelude.sym (q.same w)) h

pub Quiet-ensure : (b : Bool) (e : Error) → Quiet (ensure b e)
unfolding ensure
Quiet-ensure true e = record { same = λ w. refl }
Quiet-ensure false e = record { same = λ w. refl }

module _ {A B : Type 0} where
  continue-same :
      (f : A → Action B)
      → ((a : A) → Quiet (f a))
      → (x : Result Error A × World) → (oracle_patching.Exec.continue f x).1.files ≡ x.1.files
  continue-same f k (ok a, w) = (k a).same w
  continue-same f k (err e, w) = refl

  pub Quiet-bind :
      (m : Action A) (f : A → Action B) → Quiet m → ((a : A) → Quiet (f a)) → Quiet (m >>= f)
  unfolding ◌>>=◌
  Quiet-bind m f q k = record { same = λ w. continue-same f k (m w) ∙ q.same w }

pub ruleset quiet_rules = (
  Quiet-pure, Quiet-raise, Quiet-lift, Quiet-gets, Quiet-if, Quiet-over_ssh, Quiet-over_ssh_as,
  Quiet-ensure, Quiet-bind,
)
