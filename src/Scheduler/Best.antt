-- ===== src/Scheduler/Best.antt =====
-- The scores of the hosts that `schedule` chooses from.
use vquasar.Scheduler.Outcome.{schedule-chosen, kept-Suits, max_by-Memᴰ, kept, Suits-kept}
use vquasar.Model.{VirtualMachineSpec}
use vquasar.Base.Int.{ℤ, pos, ◌<ℤ◌, ltb_ℤ}
use vquasar.Scheduler.Choice.{Suits}
use vquasar.Base.{
  Option, ◌≡◌, false, true, List, Memᴰ, some, ◌∷◌, subst, [], Bool, if◌then◌else◌, Bool-cases, ℕ,
  inl, arith, inr,
}
use vquasar.Base.Result.{ok}
use vquasar.Scheduler.{
  Floats, Option, score, ℤ, Host, Ordering, HostCommit, is_greater, max_by, best_of,
  VirtualMachineSpec, ratio_of, schedule, compare, commit_of,
}
use vquasar.Base.{refl, true, false, [], ◌∷◌, none, some}

-- What `partial_cmp` documents of the numbers among the values of `f64`: a total order. The score of a
-- host is a number, as it divides by a positive total.
pub record FloatLaws (f64 : Floats) : Type 1 where
  pub IsNumber : f64.F → Type 0
  pub zero-IsNumber : IsNumber f64.zero
  pub ratio-IsNumber : (a b : ℤ) → pos 0 <ℤ b → IsNumber (f64.ratio a b)
  pub refl_law : (x : f64.F) → IsNumber x → is_greater (f64.partial_cmp x x) ≡ false
  pub flip_law :
      (x y : f64.F)
      → IsNumber x
      → IsNumber y
      → is_greater (f64.partial_cmp x y) ≡ true
      → is_greater (f64.partial_cmp y x) ≡ false
  pub trans_law :
      (x y z : f64.F)
      → IsNumber x
      → IsNumber y
      → IsNumber z
      → is_greater (f64.partial_cmp x y) ≡ false
      → is_greater (f64.partial_cmp y z) ≡ false
      → is_greater (f64.partial_cmp x z) ≡ false

module _ {ℓ} {A : Type ℓ} (cmp : A → A → Option Ordering)
    (same : (x : A) → is_greater (cmp x x) ≡ false)
    (flip : (x y : A) → is_greater (cmp x y) ≡ true → is_greater (cmp y x) ≡ false)
    (chain : (x y z : A)
      → is_greater (cmp x y) ≡ false
      → is_greater (cmp y z) ≡ false
      → is_greater (cmp x z) ≡ false) where
  best-step :
      (best x r y : A) (xs : List A) (b : Bool)
      → is_greater (cmp best x) ≡ b
      → ((z : A) → Memᴰ z ((if b then best else x) ∷ xs) → is_greater (cmp z r) ≡ false)
      → Memᴰ y (best ∷ x ∷ xs)
      → is_greater (cmp y r) ≡ false
  best-step best x r y xs true e bound (Memᴰ.head q) = bound y (Memᴰ.head q)
  best-step best x r y xs false e bound (Memᴰ.head q) =
      rw q (chain best x r e (bound x (Memᴰ.head refl)))
  best-step best x r y xs true e bound (Memᴰ.tail (Memᴰ.head q)) =
      rw q (chain x best r (flip best x e) (bound best (Memᴰ.head refl)))
  best-step best x r y xs false e bound (Memᴰ.tail (Memᴰ.head q)) = bound y (Memᴰ.head q)
  best-step best x r y xs b e bound (Memᴰ.tail (Memᴰ.tail m)) = bound y (Memᴰ.tail m)

  -- The best of a list is not below any item.
  best_of-bound :
      (best : A) (xs : List A) (y : A)
      → Memᴰ y (best ∷ xs)
      → is_greater (cmp y (best_of cmp best xs)) ≡ false
  best_of-bound best [] y (Memᴰ.head e) = rw e (same best)
  best_of-bound best [] y (Memᴰ.tail m) = elim m [ ]
  best_of-bound best (x ∷ xs) y m =
      let b = is_greater (cmp best x) in
      let next = if b then best else x in
      best-step best x (best_of cmp next xs) y xs b refl (best_of-bound next xs) m

  pub max_by-bound :
      (xs : List A) (best y : A)
      → max_by cmp xs ≡ some best
      → Memᴰ y xs
      → is_greater (cmp y best) ≡ false
  max_by-bound [] best y e m = elim m [ ]
  max_by-bound (x ∷ xs) best y e m =
      let eq : best_of cmp x xs ≡ best = cc in
      subst (λ b. is_greater (cmp y b) ≡ false) eq (best_of-bound x xs y m)

module _ (f64 : Floats) (laws : FloatLaws f64) where
  ratio_of-IsNumber : (c : HostCommit) (total : Option ℤ) → laws.IsNumber (ratio_of f64 c total)
  ratio_of-IsNumber c none = laws.zero-IsNumber
  ratio_of-IsNumber c (some t) = elim (Bool-cases (ltb_ℤ (pos 0) t)) [
    | inl up ↦ rw up (laws.ratio-IsNumber _ t (ground arith))
    | inr not_up ↦ rw not_up laws.zero-IsNumber
  ]

  score-IsNumber : (h : Host) (c : HostCommit) → laws.IsNumber (score f64 h c)
  unfolding score
  score-IsNumber h c = ratio_of-IsNumber c h.total_memory_bytes

  compare-bound :
      (committed : ℕ → Option HostCommit) (hosts : List Host) (best h : Host)
      → max_by (compare f64 committed) hosts ≡ some best
      → Memᴰ h hosts
      → is_greater (compare f64 committed h best) ≡ false
  compare-bound committed =
      let number = λ (h : Host). score-IsNumber h (commit_of committed h.id) in
      max_by-bound (compare f64 committed) (λ x. laws.refl_law _ (number x))
        (λ x y. laws.flip_law _ _ (number x) (number y))
        (λ x y z. laws.trans_law _ _ _ (number x) (number y) (number z))

  -- If the comparison of `f64` orders numbers, the host that is named suits the VM, and no host of the list
  -- that suits it has a greater score.
  pub schedule_best :
      (spec : VirtualMachineSpec) (hosts : List Host) (committed : ℕ → Option HostCommit)
      (pools : ℕ → Option (List ℕ)) (id : ℕ)
      → schedule f64 spec hosts committed pools ≡ ok id
      → (best : Host) × Memᴰ best hosts
        × (best.id ≡ id)
        × Suits spec committed pools best
        × ((h : Host)
            → Memᴰ h hosts
            → Suits spec committed pools h
            → is_greater (compare f64 committed h best) ≡ false)
  schedule_best spec hosts committed pools id e =
      let (required, agreed, best, named, top) =
        schedule-chosen f64 spec hosts committed pools id e in
      let (a, s) = kept-Suits spec committed pools hosts required agreed best (
        max_by-Memᴰ (compare f64 committed) (kept spec committed pools hosts required agreed) best
          top) in
      (
        best,
        a,
        named,
        s,
        λ h m suits.
            compare-bound committed (kept spec committed pools hosts required agreed) best h top
              (Suits-kept spec committed pools hosts required agreed h m suits),
      )
