-- ===== src/Base/Action/Keeps.antt =====
-- What actions keep, give back and end in, with one rule for each way to build an action.
use vquasar.Base.{◌≡◌, refl, Bool, true, false, Option, none, some, if◌then◌else◌}
use vquasar.Base.Result.{Result, ok, err}
use vquasar.Base.Action.{
  Action, pure, raise, lift, gets, or_raise, attempt, modify, continue, ◌>>=◌,
}

-- `m` keeps `P`, whether it returns or fails.
pub record Keeps {ℓ} {E S A : Type ℓ} (P : S → Type ℓ) (m : Action E S A) : Type ℓ where
  pub at : (s : S) → P s → P (m s).1

module _ {ℓ} {E S A : Type ℓ} {P : S → Type ℓ} where
  pub Keeps-pure : (a : A) → Keeps P (pure {E = E} a)
  unfolding pure
  Keeps-pure a = record { at = λ s h. h }

  pub Keeps-raise : (e : E) → Keeps P (raise {A = A} e)
  unfolding raise
  Keeps-raise e = record { at = λ s h. h }

  pub Keeps-lift : (r : Result E A) → Keeps P (lift r)
  unfolding lift
  Keeps-lift r = record { at = λ s h. h }

  pub Keeps-gets : (f : S → A) → Keeps P (gets {E = E} f)
  unfolding gets
  Keeps-gets f = record { at = λ s h. h }

  pub Keeps-or_raise : (e : E) (o : Option A) → Keeps P (or_raise e o)
  unfolding or_raise
  Keeps-or_raise e none = record { at = λ s h. h }
  Keeps-or_raise e (some a) = record { at = λ s h. h }

  pub Keeps-attempt : (m : Action E S A) → Keeps P m → Keeps P (attempt m)
  unfolding attempt
  Keeps-attempt m k = record { at = λ s h. k.at s h }

  pub Keeps-if :
      (b : Bool) (m n : Action E S A) → Keeps P m → Keeps P n → Keeps P (if b then m else n)
  Keeps-if true m n k l = k
  Keeps-if false m n k l = l

  -- The branch that is taken may use the test.
  pub Keeps-if_eq :
      (b : Bool) (m n : Action E S A)
      → (b ≡ true → Keeps P m)
      → Keeps P n
      → Keeps P (if b then m else n)
  Keeps-if_eq true m n k l = k refl
  Keeps-if_eq false m n k l = l

pub Keeps-modify {ℓ} :
    {E S : Type ℓ} {P : S → Type ℓ} (f : S → S)
    → ((s : S) → P s → P (f s))
    → Keeps P (modify {E = E} f)
unfolding modify
Keeps-modify f h = record { at = h }

module _ {ℓ} {E S A B : Type ℓ} {P : S → Type ℓ} where
  pub Keeps-bind :
      (m : Action E S A) (f : A → Action E S B)
      → Keeps P m
      → ((a : A) → Keeps P (f a))
      → Keeps P (m >>= f)
  unfolding ◌>>=◌
  Keeps-bind m f k l = record { at = λ s h. let (r, s') = m s in go r s' (k.at s h) }
    where
      go : (r : Result E A) (s : S) → P s → P (continue r f s).1
      go (ok a) s h = (l a).at s h
      go (err e) s h = h

pub ruleset keeps_rules = (
  Keeps-pure, Keeps-raise, Keeps-lift, Keeps-gets, Keeps-or_raise, Keeps-attempt, Keeps-if,
  Keeps-bind,
)

-- What a result holds, if it is one.
abbrev pub Holds {ℓ} : {E A : Type ℓ} → (A → Type ℓ) → Result E A → Type ℓ
Holds Q (ok a) = Q a
Holds Q (err e) = Unit

-- `m` keeps `P`, and what it returns satisfies `Q`.
pub record Gives {ℓ} {E S A : Type ℓ} (P : S → Type ℓ) (Q : A → Type ℓ) (m : Action E S A)
    : Type ℓ where
  pub at : (s : S) → P s → P (m s).1 × Holds Q (m s).0

module _ {ℓ} {E S A B : Type ℓ} {P : S → Type ℓ} where
  pub Keeps-then :
      {m : Action E S A} {f : A → Action E S B}
      → Keeps P m
      → ((a : A) → Keeps P (f a))
      → Keeps P (m >>= f)
  Keeps-then {m} {f} k l = Keeps-bind m f k l

module _ {ℓ} {E S A : Type ℓ} {P : S → Type ℓ} {Q : A → Type ℓ} where
  pub weak : (m : Action E S A) → ((a : A) → Q a) → Keeps P m → Gives P Q m
  weak m q k = record { at = λ s h. (k.at s h, all (m s).0) }
    where
      all : (r : Result E A) → Holds Q r
      all (ok a) = q a
      all (err e) = tt

module _ {ℓ} {E S A B : Type ℓ} {P : S → Type ℓ} {Q : A → Type ℓ} where
  pub Gives-bind :
      (m : Action E S A) (f : A → Action E S B)
      → Gives P Q m
      → ((a : A) → Q a → Keeps P (f a))
      → Keeps P (m >>= f)
  unfolding ◌>>=◌
  Gives-bind m f k l = record {
    at = λ s h. let (r, s') = m s in let (p, q) = k.at s h in go r s' p q;
  }
    where
      go : (r : Result E A) (s : S) → P s → Holds Q r → P (continue r f s).1
      go (ok a) s h q = (l a q).at s h
      go (err e) s h q = h

  pub Gives-then :
      {R : B → Type ℓ} (m : Action E S A) (f : A → Action E S B)
      → Gives P Q m
      → ((a : A) → Q a → Gives P R (f a))
      → Gives P R (m >>= f)
  unfolding ◌>>=◌
  Gives-then {R} m f k l = record {
    at = λ s h. let (r, s') = m s in let (p, q) = k.at s h in go r s' p q;
  }
    where
      go :
          (r : Result E A) (s : S)
          → P s
          → Holds Q r
          → P (continue r f s).1 × Holds R (continue r f s).0
      go (ok a) s h q = (l a q).at s h
      go (err e) s h q = (h, tt)

module _ {ℓ} {E S A B : Type ℓ} {P : S → Type ℓ} {R : B → Type ℓ} where
  pub Gives-after :
      {m : Action E S A} {f : A → Action E S B}
      → Keeps P m
      → ((a : A) → Gives P R (f a))
      → Gives P R (m >>= f)
  Gives-after {m} {f} k l = Gives-then m f (weak m (λ a. tt) k) λ a (u : Unit {ℓ}). l a

module _ {ℓ} {E S A : Type ℓ} {P : S → Type ℓ} {Q : A → Type ℓ} where
  pub Gives-pure : (a : A) → Q a → Gives P Q (pure {E = E} a)
  unfolding pure
  Gives-pure a q = record { at = λ s h. (h, q) }

  pub Gives-or_raise :
      (e : E) (o : Option A) → ((a : A) → o ≡ some a → Q a) → Gives P Q (or_raise {S = S} e o)
  unfolding or_raise
  Gives-or_raise e none w = record { at = λ s h. (h, tt) }
  Gives-or_raise e (some a) w = record { at = λ s h. (h, w a refl) }

  pub Gives-gets : (f : S → A) → ((s : S) → P s → Q (f s)) → Gives P Q (gets {E = E} f)
  unfolding gets
  Gives-gets f q = record { at = λ s h. (h, q s h) }

-- From a state with `P`, `m` ends in one with `Q`, whether it returns or fails.
pub record Turns {ℓ} {E S A : Type ℓ} (P Q : S → Type ℓ) (m : Action E S A) : Type ℓ where
  pub at : (s : S) → P s → Q (m s).1

module _ {ℓ} {E S A B : Type ℓ} {P Q : S → Type ℓ} where
  pub Turns-gets :
      (f : S → A) (k : A → Action E S B) → ((a : A) → Turns P Q (k a)) → Turns P Q (gets f >>= k)
  unfolding ◌>>=◌
  Turns-gets f k l = record { at = λ s h. (l (f s)).at s h }

module _ {ℓ} {E S B : Type ℓ} {P Q : S → Type ℓ} where
  pub Turns-modify :
      (f : S → S) (k : Unit {ℓ} → Action E S B)
      → ((s : S) → P s → Q (f s))
      → Keeps Q (k tt)
      → Turns P Q (modify f >>= k)
  unfolding ◌>>=◌
  Turns-modify f k h l = record { at = λ s p. l.at (f s) (h s p) }

-- What holds of a result and the state beside it, if there is a result.
pub record Ends {ℓ} {E S A : Type ℓ} (Q : A → S → Type ℓ) (m : Action E S A) : Type ℓ where
  pub at : (s : S) → let (r, s') = m s in Holds (λ a. Q a s') r

module _ {ℓ} {E S A : Type ℓ} {Q : A → S → Type ℓ} where
  pub Ends-bind :
      {B : Type ℓ} (m : Action E S B) (f : B → Action E S A)
      → ((b : B) → Ends Q (f b))
      → Ends Q (m >>= f)
  unfolding ◌>>=◌
  Ends-bind {B} m f l = record { at = λ s. let (r, s') = m s in go r s' }
    where
      go : (r : Result E B) (s : S) → let (r', s') = continue r f s in Holds (λ a. Q a s') r'
      go (ok b) s = (l b).at s
      go (err e) s = tt

  pub Ends-raise : (e : E) → Ends Q (raise e)
  unfolding raise
  Ends-raise e = record { at = λ s. tt }
