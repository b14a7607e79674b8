-- ===== src/Base/Append.antt =====
-- Lists that are appended, filtered and mapped, and the tests on their items.
use mathlib.Core.Path.{◌≡◌, refl, ap, ap₂}
use mathlib.Core.Logic.{inl, inr}
use mathlib.Core.List.{List, [], ◌∷◌, ◌++◌, Memᴰ, map}
use mathlib.Core.Bool.{Bool, true, false, ◌&&◌, ◌||◌}
use native.Mathlib.Omega.{arith}
use vquasar.Base.Lists.{All, any, all, keep}
use vquasar.Base.Tests.{Bool-cases}

module _ {ℓ} {A : Type ℓ} where
  pub All-append {κ} : (P : A → Type κ) (xs ys : List A) → All P xs → All P ys → All P (xs ++ ys)
  All-append P [] ys h k = k
  All-append P (x ∷ xs) ys h k = (h.0, All-append P xs ys h.1 k)

  pub any-Memᴰ : (q : A → Bool) (xs : List A) → any q xs ≡ true → (x : A) × Memᴰ x xs × (q x ≡ true)
  any-Memᴰ q [] e = cc
  any-Memᴰ q (x ∷ xs) e = elim (Bool-cases (q x)) [
    | inl here ↦ (x, Memᴰ.head refl, here)
    | inr there ↦ let (y, m, h) = any-Memᴰ q xs (rw there at e) in (y, Memᴰ.tail m, h)
  ]

  pub any-All : (q : A → Bool) (xs : List A) → any q xs ≡ false → All (λ x. q x ≡ false) xs
  any-All q [] e = tt
  any-All q (x ∷ xs) e = (ground arith, any-All q xs (ground arith))

  pub all_append : (q : A → Bool) (xs ys : List A) → all q (xs ++ ys) ≡ (all q xs && all q ys)
  all_append q [] ys = refl
  all_append q (x ∷ xs) ys = rw (all_append q xs ys) (assoc (q x) (all q xs) (all q ys))
    where
      assoc : (a b c : Bool) → (a && (b && c)) ≡ ((a && b) && c)
      assoc true b c = refl
      assoc false b c = refl

  pub any_append : (q : A → Bool) (xs ys : List A) → any q (xs ++ ys) ≡ (any q xs || any q ys)
  any_append q [] ys = refl
  any_append q (x ∷ xs) ys = rw (any_append q xs ys) (assoc (q x) (any q xs) (any q ys))
    where
      assoc : (a b c : Bool) → (a || (b || c)) ≡ ((a || b) || c)
      assoc true b c = refl
      assoc false b c = refl

  pub Memᴰ-append_left : (x : A) (xs ys : List A) → Memᴰ x xs → Memᴰ x (xs ++ ys)
  Memᴰ-append_left x [] ys m = elim m [ ]
  Memᴰ-append_left x (y ∷ xs) ys (Memᴰ.head e) = Memᴰ.head e
  Memᴰ-append_left x (y ∷ xs) ys (Memᴰ.tail m) = Memᴰ.tail (Memᴰ-append_left x xs ys m)

  pub Memᴰ-append_right : (x : A) (xs ys : List A) → Memᴰ x ys → Memᴰ x (xs ++ ys)
  Memᴰ-append_right x [] ys m = m
  Memᴰ-append_right x (y ∷ xs) ys m = Memᴰ.tail (Memᴰ-append_right x xs ys m)

  pub any-map {κ} :
      {B : Type κ} (f : B → Bool) (g : A → B) (xs : List A)
      → any f (map g xs) ≡ any (λ x. f (g x)) xs
  any-map f g [] = refl
  any-map f g (x ∷ xs) = ap (λ b. f (g x) || b) (any-map f g xs)

  pub any-keep : (f q : A → Bool) (xs : List A) → any f (keep q xs) ≡ any (λ x. q x && f x) xs
  any-keep f q [] = refl
  any-keep f q (x ∷ xs) = elim (Bool-cases (q x)) [
    | inl e ↦ rw e (ap (λ b. f x || b) (any-keep f q xs))
    | inr e ↦ rw e (any-keep f q xs)
  ]

  pub any_ext :
      (f g : A → Bool) (xs : List A) → ((x : A) → Memᴰ x xs → f x ≡ g x) → any f xs ≡ any g xs
  any_ext f g [] h = refl
  any_ext f g (x ∷ xs) h = ap₂ ◌||◌ (h x (Memᴰ.head refl)) (any_ext f g xs λ y m. h y (Memᴰ.tail m))

  pub any-false : (f : A → Bool) (xs : List A) → any (λ x. f x && false) xs ≡ false
  any-false f [] = refl
  any-false f (x ∷ xs) = ground (arith, any-false f xs)
