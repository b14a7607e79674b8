-- ===== src/Scheduler/Outcome.antt =====
-- The outcome of `schedule` on every branch.
use vquasar.Scheduler.{
  Ordering, HostCommit, Host, best_of, required_host, Floats, Unschedulable, early_refusal, fits,
  is_greater, is_reachable, max_by, schedule_on, required_pools, choose, schedule, compare,
  no_capacity, pinned_host, host_id,
}
use vquasar.Model.{VirtualMachineSpec}
use mathlib.Core.Bool.{Bool, true, false}
use mathlib.Core.Option.{none, some}
use vquasar.Base.{
  refl, Option, ℕ, Bool, List, Memᴰ, ◌≡◌, [], if◌then◌else◌, Memᴰ-keep, keep, subst, ◌∷◌, ◌⊎◌,
  keep-Memᴰ, true, some, inl, inr, arith, is_empty, Bool-cases, ap,
}
use vquasar.Base.Result.{ok, err, Result}
use vquasar.Scheduler.Choice.{Suits, candidate_iff, conflict_lem}

module _ {ℓ} {A : Type ℓ} (cmp : A → A → Option Ordering) where
  Memᴰ-swap :
      (b : Bool) (best x : A) (xs : List A) (y : A)
      → Memᴰ y ((if b then best else x) ∷ xs)
      → Memᴰ y (best ∷ x ∷ xs)
  Memᴰ-swap true best x xs y (Memᴰ.head e) = Memᴰ.head e
  Memᴰ-swap false best x xs y (Memᴰ.head e) = Memᴰ.tail (Memᴰ.head e)
  Memᴰ-swap b best x xs y (Memᴰ.tail m) = Memᴰ.tail (Memᴰ.tail m)

  pub best_of-Memᴰ : (best : A) (xs : List A) → Memᴰ (best_of cmp best xs) (best ∷ xs)
  best_of-Memᴰ best [] = Memᴰ.head refl
  best_of-Memᴰ best (x ∷ xs) =
      let b = is_greater (cmp best x) in
      Memᴰ-swap b best x xs _ (best_of-Memᴰ (if b then best else x) xs)

  max_by-cases : (xs : List A) → (xs ≡ []) ⊎ ((x : A) × (max_by cmp xs ≡ some x) × Memᴰ x xs)
  max_by-cases [] = inl refl
  max_by-cases (x ∷ xs) = inr (best_of cmp x xs, refl, best_of-Memᴰ x xs)

pub max_by-Memᴰ {ℓ} :
    {A : Type ℓ} (cmp : A → A → Option Ordering) (xs : List A) (x : A)
    → max_by cmp xs ≡ some x
    → Memᴰ x xs
max_by-Memᴰ cmp [] x e = cc
max_by-Memᴰ cmp (y ∷ ys) x e =
    let same : best_of cmp y ys ≡ x = cc in
    subst (λ b. Memᴰ b (y ∷ ys)) same (best_of-Memᴰ cmp y ys)

-- No host of the list suits the VM.
abbrev pub NoneSuits :
    VirtualMachineSpec → (ℕ → Option HostCommit) → (ℕ → Option (List ℕ)) → List Host → Type 0
NoneSuits spec committed pools hosts = (h : Host) → Memᴰ h hosts → Suits spec committed pools h → ⊥

abbrev pub Outcome :
    VirtualMachineSpec
    → (ℕ → Option HostCommit)
    → (ℕ → Option (List ℕ))
    → List Host
    → Result Unschedulable ℕ
    → Type 0
Outcome spec committed pools hosts r =
    ((h : Host) × Memᴰ h hosts × (r ≡ ok h.id) × Suits spec committed pools h)
    ⊎ ((why : Unschedulable) × (r ≡ err why) × NoneSuits spec committed pools hosts)

module _ (spec : VirtualMachineSpec) (committed : ℕ → Option HostCommit)
    (pools : ℕ → Option (List ℕ)) (hosts : List Host) (required : Option ℕ)
    (agreed : required_host spec ≡ ok required) where
  abbrev reachable : List Host
  reachable = keep (is_reachable required (required_pools spec) pools) hosts

  abbrev pub kept : List Host
  kept = keep (fits spec committed) reachable

  pub kept-Suits : (h : Host) → Memᴰ h kept → Memᴰ h hosts × Suits spec committed pools h
  kept-Suits h m =
      let (r, f) = Memᴰ-keep (fits spec committed) h reachable m in
      let (a, t) = Memᴰ-keep (is_reachable required (required_pools spec) pools) h hosts r in
      (a, (candidate_iff spec committed pools required h agreed).0 (rw (t, f) refl))

  pub Suits-kept : (h : Host) → Memᴰ h hosts → Suits spec committed pools h → Memᴰ h kept
  Suits-kept h m s =
      let c = (candidate_iff spec committed pools required h agreed).1 s in
      keep-Memᴰ (fits spec committed) h reachable
        (keep-Memᴰ (is_reachable required (required_pools spec) pools) h hosts m (ground arith))
        (ground arith)

  empty_kept : kept ≡ [] → NoneSuits spec committed pools hosts
  empty_kept e h m s = no_item (subst (Memᴰ h) e (Suits-kept h m s))
    where
      no_item : Memᴰ h [] → ⊥
      no_item i = elim i [ ]

  empty_lem {ℓ} : {A : Type ℓ} (xs : List A) → is_empty xs ≡ true → xs ≡ []
  empty_lem [] e = refl
  empty_lem (x ∷ xs) e = cc

  early_refusal-empty :
      (why : Unschedulable)
      → early_refusal spec required (required_pools spec) hosts reachable ≡ some why
      → kept ≡ []
  early_refusal-empty why e = elim (Bool-cases (is_empty reachable)) [
    | inl empty ↦ ap (keep (fits spec committed)) (empty_lem reachable empty)
    | inr left ↦ absurd (not_refused left e)
  ]
    where
      not_refused :
          is_empty reachable ≡ false
          → early_refusal spec required (required_pools spec) hosts reachable ≡ some why
          → ⊥
      not_refused left e = ground arith

  choose-cases :
      (f64 : Floats) (early : Option Unschedulable)
      → ((why : Unschedulable) → early ≡ some why → kept ≡ [])
      → Outcome spec committed pools hosts (choose f64 spec committed reachable early)
  choose-cases f64 (some why) empty = inr (why, refl, empty_kept (empty why refl))
  choose-cases f64 none empty = elim (max_by-cases (compare f64 committed) kept) [
    | inl e ↦ inr (no_capacity, ap host_id (ap (max_by (compare f64 committed)) e), empty_kept e)
    | inr (h, e, m) ↦ let (a, s) = kept-Suits h m in inl (h, a, ap host_id e, s)
  ]

-- A host that is named is the greatest of those that the filters keep.
pub schedule-chosen :
    (f64 : Floats) (spec : VirtualMachineSpec) (hosts : List Host)
    (committed : ℕ → Option HostCommit) (pools : ℕ → Option (List ℕ)) (id : ℕ)
    → schedule f64 spec hosts committed pools ≡ ok id
    → (required : Option ℕ) × (agreed : required_host spec ≡ ok required) × (best : Host) × (best.id
        ≡ id)
      × (max_by (compare f64 committed) (kept spec committed pools hosts required agreed)
          ≡ some best)
unfolding schedule
schedule-chosen f64 spec hosts committed pools id e = cases (required_host spec) refl e
  where
    named : (o : Option Host) → host_id o ≡ ok id → (best : Host) × (best.id ≡ id) × (o ≡ some best)
    named none h = cc
    named (some best) h = (best, cc, refl)

    picked :
        (early : Option Unschedulable) (r : Option ℕ) (a : required_host spec ≡ ok r)
        → choose f64 spec committed (reachable spec committed pools hosts r a) early ≡ ok id
        → (best : Host) × (best.id ≡ id)
          × (max_by (compare f64 committed) (kept spec committed pools hosts r a) ≡ some best)
    picked (some why) r a h = cc
    picked none r a h =
        named (max_by (compare f64 committed) (kept spec committed pools hosts r a)) h

    cases :
        (r : Result Unschedulable (Option ℕ))
        → required_host spec ≡ r
        → schedule_on f64 spec hosts committed pools r ≡ ok id
        → (required : Option ℕ) × (agreed : required_host spec ≡ ok required) × (best : Host)
          × (best.id ≡ id)
          × (max_by (compare f64 committed) (kept spec committed pools hosts required agreed)
              ≡ some best)
    cases (err why) a h = cc
    cases (ok r) a h = let (b, n, m) = picked _ r a h in (r, a, b, n, m)

pub schedule-cases :
    (f64 : Floats) (spec : VirtualMachineSpec) (hosts : List Host)
    (committed : ℕ → Option HostCommit) (pools : ℕ → Option (List ℕ))
    → Outcome spec committed pools hosts (schedule f64 spec hosts committed pools)
unfolding schedule required_host
schedule-cases f64 spec hosts committed pools = cases (required_host spec) refl
  where
    cases :
        (r : Result Unschedulable (Option ℕ))
        → required_host spec ≡ r
        → Outcome spec committed pools hosts (schedule_on f64 spec hosts committed pools r)
    cases (err why) e = inr (
      why,
      refl,
      λ h m s. conflict_lem (pinned_host spec) spec.placement.host why h.id e s.requested s.pinned,
    )
    cases (ok required) e =
        choose-cases spec committed pools hosts required e f64 _
          (early_refusal-empty spec committed pools hosts required e)
