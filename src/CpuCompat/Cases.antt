-- ===== src/CpuCompat/Cases.antt =====
-- The answer on every branch.
use Prim.Native.String.{compare}
use vquasar.CpuCompat.{
  CpuCompat, compatible, vendor_mismatch, missing_features, unknown, insert, sort, contains,
  missing, verdict, check_features, check,
}
use text.Mathlib.Text.{is_le}
use vquasar.Base.{
  none, some, true, false, [], ◌∷◌, Option, refl, inl, inr, List, String, All, Memᴰ, ◌≡◌, ◌↔◌, ◌≢◌,
  Bool-cases, is_empty, str_eq, ◌⊎◌, eq_iff, ◌||◌, arith, Bool, subst, not, sym, Memᴰ-keep,
  keep-Memᴰ,
}
use vquasar.Base.Text.{apart}

-- The same vendor on both sides, and both have reported features.
abbrev pub AreReported : Option String → List String → Option String → List String → Type 0
AreReported source_vendor source target_vendor target =
    (source_vendor ≡ target_vendor)
    × (source_vendor ≢ none)
    × (is_empty source ≡ false)
    × (is_empty target ≡ false)

abbrev pub Answer : Option String → List String → Option String → List String → CpuCompat → Type 0
Answer sv source tv target compatible =
    AreReported sv source tv target × All (λ f. Memᴰ f target) source
Answer sv source tv target (vendor_mismatch s t) = (sv ≡ some s) × (tv ≡ some t) × (s ≢ t)
Answer sv source tv target (missing_features fs) =
    AreReported sv source tv target
    × (is_empty fs ≡ false)
    × ((f : String) → Memᴰ f fs ↔ (Memᴰ f source × (Memᴰ f target → ⊥)))
Answer sv source tv target unknown =
    (sv ≡ none) ⊎ ((tv ≡ none) ⊎ ((is_empty source || is_empty target) ≡ true))

contains-Memᴰ : (f : String) (ts : List String) → (contains ts f ≡ true) ↔ Memᴰ f ts
contains-Memᴰ f [] = ((λ e. absurd cc), λ m. elim m [ ])
contains-Memᴰ f (t ∷ ts) = (to (contains-Memᴰ f ts).0, of (contains-Memᴰ f ts).1)
  where
    to : (contains ts f ≡ true → Memᴰ f ts) → contains (t ∷ ts) f ≡ true → Memᴰ f (t ∷ ts)
    to later e = elim (Bool-cases (str_eq f t)) [
      | inl here ↦ Memᴰ.head ((eq_iff f t).0 here)
      | inr other ↦ Memᴰ.tail (later (rw other at e))
    ]

    of : (Memᴰ f ts → contains ts f ≡ true) → Memᴰ f (t ∷ ts) → contains (t ∷ ts) f ≡ true
    of later (Memᴰ.head q) = rw ((eq_iff f t).1 q) refl
    of later (Memᴰ.tail m) = let e = later m in ground (arith, e)

cons_cases : (s f : String) (ts : List String) → Memᴰ f (s ∷ ts) → (f ≡ s) ⊎ Memᴰ f ts
cons_cases s f ts (Memᴰ.head q) = inl q
cons_cases s f ts (Memᴰ.tail m) = inr m

insert-Memᴰ : (f s : String) (ts : List String) → Memᴰ f (insert s ts) ↔ Memᴰ f (s ∷ ts)
unfolding insert
insert-Memᴰ f s [] = ((λ m. m), λ m. m)
insert-Memᴰ f s (t ∷ ts) = elim (Bool-cases (is_le (compare s t))) [
  | inl first ↦ rw first ((λ m. m), λ m. m)
  | inr later ↦ rw later (to (insert-Memᴰ f s ts).0, of (insert-Memᴰ f s ts).1)
]
  where
    to : (Memᴰ f (insert s ts) → Memᴰ f (s ∷ ts)) → Memᴰ f (t ∷ insert s ts) → Memᴰ f (s ∷ t ∷ ts)
    to ih (Memᴰ.head q) = Memᴰ.tail (Memᴰ.head q)
    to ih (Memᴰ.tail m) = elim (cons_cases s f ts (ih m)) [
      | inl q ↦ Memᴰ.head q
      | inr n ↦ Memᴰ.tail (Memᴰ.tail n)
    ]

    of : (Memᴰ f (s ∷ ts) → Memᴰ f (insert s ts)) → Memᴰ f (s ∷ t ∷ ts) → Memᴰ f (t ∷ insert s ts)
    of ih (Memᴰ.head q) = Memᴰ.tail (ih (Memᴰ.head q))
    of ih (Memᴰ.tail (Memᴰ.head q)) = Memᴰ.head q
    of ih (Memᴰ.tail (Memᴰ.tail m)) = Memᴰ.tail (ih (Memᴰ.tail m))

sort-Memᴰ : (f : String) (ss : List String) → Memᴰ f (sort ss) ↔ Memᴰ f ss
unfolding sort
sort-Memᴰ f [] = ((λ m. m), λ m. m)
sort-Memᴰ f (s ∷ ss) =
    let step = insert-Memᴰ f s (sort ss) in
    let rest = sort-Memᴰ f ss in
    (
      (λ m. elim (cons_cases s f (sort ss) (step.0 m)) [
        | inl q ↦ Memᴰ.head q
        | inr n ↦ Memᴰ.tail (rest.0 n)
      ]),
      λ m. elim (cons_cases s f ss m) [
        | inl q ↦ step.1 (Memᴰ.head q)
        | inr n ↦ step.1 (Memᴰ.tail (rest.1 n))
      ],
    )

missing-Memᴰ :
    (f : String) (source target : List String)
    → Memᴰ f (missing source target) ↔ (Memᴰ f source × (Memᴰ f target → ⊥))
missing-Memᴰ f source target = (
  (λ m.
      let (inside, lacks) = Memᴰ-keep (λ g. not (contains target g)) f source m in
      (inside, λ n. clash (contains target f) ((contains-Memᴰ f target).1 n) lacks)),
  λ (inside, lacks).
      keep-Memᴰ (λ g. not (contains target g)) f source inside
        (elim (Bool-cases (contains target f)) [
          | inl there ↦ absurd (lacks ((contains-Memᴰ f target).0 there))
          | inr not_there ↦ rw not_there refl
        ]),
)
  where
    clash : (b : Bool) → b ≡ true → not b ≡ true → ⊥
    clash true x y = absurd cc
    clash false x y = absurd cc

none_missing :
    (source target : List String) → missing source target ≡ [] → All (λ f. Memᴰ f target) source
none_missing [] target e = tt
none_missing (f ∷ fs) target e = elim (Bool-cases (contains target f)) [
  | inl there ↦ ((contains-Memᴰ f target).0 there, none_missing fs target (rw there at e))
  | inr lacks ↦ absurd (not_empty (rw lacks at e))
]
  where
    not_empty : f ∷ missing fs target ≡ [] → ⊥
    not_empty x = cc

insert-nonempty : (s : String) (ts : List String) → is_empty (insert s ts) ≡ false
unfolding insert
insert-nonempty s [] = refl
insert-nonempty s (t ∷ ts) = elim (Bool-cases (is_le (compare s t))) [
  | inl first ↦ rw first refl
  | inr later ↦ rw later refl
]

module _ (v : String) (source target : List String) where
  verdict_lem :
      AreReported (some v) source (some v) target
      → (fs : List String) → missing source target ≡ fs
      → Answer (some v) source (some v) target (verdict fs)
  unfolding sort
  verdict_lem reported [] e = (reported, none_missing source target e)
  verdict_lem reported (f ∷ fs) e = (
    reported,
    insert-nonempty f (sort fs),
    λ g.
        let sorted = sort-Memᴰ g (f ∷ fs) in
        let here = missing-Memᴰ g source target in
        (
          (λ m. here.0 (subst (Memᴰ g) (sym e) (sorted.0 m))),
          λ n. sorted.1 (subst (Memᴰ g) e (here.1 n)),
        ),
  )

  features_lem : Answer (some v) source (some v) target (check_features source target)
  features_lem = elim (Bool-cases (is_empty source || is_empty target)) [
    | inl blank ↦ rw blank (inr (inr blank))
    | inr full ↦
        let (a, b) = both (is_empty source) (is_empty target) full in
        rw full (verdict_lem (refl, (λ e. absurd cc), a, b) (missing source target) refl)
  ]
    where
      both : (a b : Bool) → (a || b) ≡ false → (a ≡ false) × (b ≡ false)
      both true b e = absurd cc
      both false b e = (refl, e)

-- check answers Compatible if both hosts report the same vendor and some features and the target
-- has each feature of the source; MissingFeatures, with exactly those that it lacks, if they report
-- them and it lacks one; VendorMismatch if the vendors differ; and Unknown only if a vendor or all
-- features of a host are not reported.
pub check_answers :
    (source_vendor : Option String) (source : List String) (target_vendor : Option String)
    (target : List String)
    → Answer source_vendor source target_vendor target
        (check source_vendor source target_vendor target)
unfolding check
check_answers none source tv target = inl refl
check_answers (some s) source none target = inr (inl refl)
check_answers (some s) source (some t) target = elim (Bool-cases (str_eq s t)) [
  | inr differ ↦ rw differ (refl, refl, apart s t differ)
  | inl same ↦ rw (same, ← (eq_iff s t).0 same) (features_lem s source target)
]
