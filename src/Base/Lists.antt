-- ===== src/Base/Lists.antt =====
-- Lists measured by native numbers, membership tests, and predicates over lists.
use Prim.Native.Nat.{ℕ, suc, ◌+◌}
use mathlib.Core.Path.{◌≡◌, refl, ap}
use mathlib.Core.Logic.{◌⊎◌, inl, inr}
use mathlib.Core.List.{List, [], ◌∷◌, ◌++◌, Memᴰ}
use mathlib.Core.Bool.{Bool, true, false, ◌&&◌, ◌||◌}
use native.Mathlib.Omega.{arith}
use vquasar.Base.Tests.{◌==◌, if◌then◌else◌}

module _ {ℓ} {A : Type ℓ} where
  abbrev pub length : List A → ℕ
  length [] = 0
  length (x ∷ xs) = suc (length xs)

  pub length-append : (xs ys : List A) → length (xs ++ ys) ≡ length xs + length ys
  length-append [] ys = omega arith
  length-append (x ∷ xs) ys = omega (arith, length-append xs ys)

  -- `Iterator::filter`, with a Boolean test.
  abbrev pub keep : (A → Bool) → List A → List A
  keep p [] = []
  keep p (x ∷ xs) = let rest = keep p xs in if p x then x ∷ rest else rest

  abbrev pub any : (A → Bool) → List A → Bool
  any p [] = false
  any p (x ∷ xs) = p x || any p xs

  abbrev pub all : (A → Bool) → List A → Bool
  all p [] = true
  all p (x ∷ xs) = p x && all p xs

  abbrev pub is_empty : List A → Bool
  is_empty [] = true
  is_empty (x ∷ xs) = false

-- Each item satisfies the predicate.
abbrev pub All {ℓ κ} : {A : Type ℓ} → (A → Type κ) → List A → Type κ
All P [] = Unit
All P (x ∷ xs) = P x × All P xs

-- `contains` on a set of numbers.
abbrev pub elem : ℕ → List ℕ → Bool
elem a [] = false
elem a (x ∷ xs) = (a == x) || elem a xs

module _ {ℓ} {A : Type ℓ} where
  -- One item of a filtered list.
  Memᴰ-if :
      (b : Bool) (a x : A) (r : List A)
      → Memᴰ a (if b then x ∷ r else r)
      → Memᴰ a r ⊎ ((a ≡ x) × (b ≡ true))
  Memᴰ-if true a x r (Memᴰ.head e) = inr (e, refl)
  Memᴰ-if true a x r (Memᴰ.tail m) = inl m
  Memᴰ-if false a x r m = inl m

  if-Memᴰ : (b : Bool) (a x : A) (r : List A) → Memᴰ a r → Memᴰ a (if b then x ∷ r else r)
  if-Memᴰ true a x r m = Memᴰ.tail m
  if-Memᴰ false a x r m = m

  -- A filtered list holds the items of the list that pass the test, and no others.
  pub Memᴰ-keep :
      (p : A → Bool) (a : A) (xs : List A) → Memᴰ a (keep p xs) → Memᴰ a xs × (p a ≡ true)
  Memᴰ-keep p a [] m = elim m [ ]
  Memᴰ-keep p a (x ∷ xs) m = elim (Memᴰ-if (p x) a x (keep p xs) m) [
    | inl t ↦ let (u, e) = Memᴰ-keep p a xs t in (Memᴰ.tail u, e)
    | inr (q, e) ↦ (Memᴰ.head q, rw q e)
  ]

  pub keep-Memᴰ : (p : A → Bool) (a : A) (xs : List A) → Memᴰ a xs → p a ≡ true → Memᴰ a (keep p xs)
  keep-Memᴰ p a [] m e = elim m [ ]
  keep-Memᴰ p a (x ∷ xs) (Memᴰ.head q) e = rw (← ap p q, e) (Memᴰ.head q)
  keep-Memᴰ p a (x ∷ xs) (Memᴰ.tail m) e = if-Memᴰ (p x) a x (keep p xs) (keep-Memᴰ p a xs m e)

  pub All-Memᴰ {κ} : (P : A → Type κ) (a : A) (xs : List A) → Memᴰ a xs → All P xs → P a
  All-Memᴰ P a [] m h = elim m [ ]
  All-Memᴰ P a (x ∷ xs) (Memᴰ.head e) h = rw e (h.0)
  All-Memᴰ P a (x ∷ xs) (Memᴰ.tail m) h = All-Memᴰ P a xs m h.1

  pub All-mono {κ μ} :
      {P : A → Type κ} {Q : A → Type μ} (xs : List A) → ((a : A) → P a → Q a) → All P xs → All Q xs
  All-mono [] f h = tt
  All-mono (x ∷ xs) f h = (f x h.0, All-mono xs f h.1)
