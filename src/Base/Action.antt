-- ===== src/Base/Action.antt =====
-- Code that changes a state and may fail. What was written before an error stays written, so the
-- state comes back beside the error too.
pub mod Keeps
use vquasar.Base.{Option, none, some}
use vquasar.Base.Result.{Result, ok, err}

abbrev pub Action {ℓ} : Type ℓ → Type ℓ → Type ℓ → Type ℓ
Action E S A = S → Result E A × S

module _ {ℓ} {E S A : Type ℓ} where
  pub pure : A → Action E S A
  pure a s = (ok a, s)

  pub raise : E → Action E S A
  raise e s = (err e, s)

  -- `?` on a result.
  pub lift : Result E A → Action E S A
  lift r s = (r, s)

  pub gets : (S → A) → Action E S A
  gets f s = (ok (f s), s)

  -- `ok_or(e)?`.
  pub or_raise : E → Option A → Action E S A
  or_raise e none s = (err e, s)
  or_raise e (some a) s = (ok a, s)

  -- The outcome as a value, for code that goes on after an error.
  pub attempt : Action E S A → Action E S (Result E A)
  attempt m s = let (r, s') = m s in (ok r, s')

pub modify {ℓ} : {E S : Type ℓ} → (S → S) → Action E S (Unit {ℓ})
modify f s = (ok tt, f s)

module _ {ℓ} {E S A B : Type ℓ} where
  abbrev pub continue : Result E A → (A → Action E S B) → Action E S B
  continue (ok a) f s = f a s
  continue (err e) f s = (err e, s)

  infixl 5 ◌>>=◌ ◌>>◌
  -- Unfolding this unfolds every other way to build an action too.
  unfoldable pub ◌>>=◌ : Action E S A → (A → Action E S B) → Action E S B
  unfolding pure raise lift gets or_raise attempt modify
  ◌>>=◌ m f s = let (r, s') = m s in continue r f s'

  abbrev pub ◌>>◌ : Action E S A → Action E S B → Action E S B
  m >> k = m >>= λ _. k
