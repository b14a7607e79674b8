-- ===== src/Quota/Check.antt =====
-- The outcomes of `check`.
use vquasar.Base.Int.{ℤ, pos, ◌≤ℤ◌, ◌<ℤ◌, add_i64}
use vquasar.Quota.{Dimension, Exceeded, check_dimensions, ℤ, Amounts, check, Limits, dimensions}
use vquasar.Base.{
  [], ◌∷◌, refl, Option, List, some, ◌≡◌, All, ◌⊎◌, inl, String, none, inr, arith, ◌∙◌,
}
use vquasar.Base.Result.{ok, err}

-- No limit, a request for nothing, or a sum within the limit.
abbrev pub FitsIn : Option ℤ → ℤ → ℤ → Type 0
FitsIn none used want = Unit
FitsIn (some limit) used want = (want ≤ℤ pos 0) ⊎ (add_i64 used want ≤ℤ limit)

abbrev pub Fits : Dimension → Type 0
Fits d = FitsIn d.limit d.used d.want

-- The error's dimension: it is limited, asked for, and past its limit, and the ones before it fit.
pub data FirstOver (e : Exceeded) : List Dimension → Type 0 where
  over :
      {d : Dimension} {ds : List Dimension}
      → e.dimension ≡ d.name
      → d.limit ≡ some e.limit
      → e.in_use ≡ d.used
      → e.requested ≡ d.want
      → pos 0 <ℤ d.want
      → e.limit <ℤ add_i64 d.used d.want
      → FirstOver e (d ∷ ds)
  later : {d : Dimension} {ds : List Dimension} → Fits d → FirstOver e ds → FirstOver e (d ∷ ds)

abbrev Outcome : List Dimension → Type 0
Outcome ds =
    ((check_dimensions ds ≡ ok tt) × All Fits ds)
    ⊎ ((e : Exceeded) × (check_dimensions ds ≡ err e) × FirstOver e ds)

abbrev dimension : String → Option ℤ → ℤ → ℤ → Dimension
dimension n l u w = record { name = n; limit = l; used = u; want = w }

Fits-cases :
    (n : String) (l u w : ℤ) (ds : List Dimension)
    → (((w ≤ℤ pos 0) ⊎ (add_i64 u w ≤ℤ l))
        × (check_dimensions (dimension n (some l) u w ∷ ds) ≡ check_dimensions ds))
      ⊎ ((pos 0 <ℤ w)
          × (l <ℤ add_i64 u w)
          × (check_dimensions (dimension n (some l) u w ∷ ds)
              ≡ err (record { dimension = n; limit = l; in_use = u; requested = w })))
unfolding check_dimensions
Fits-cases n l u w ds = ground arith

Outcome-skip :
    (d : Dimension) (ds : List Dimension)
    → Fits d
    → check_dimensions (d ∷ ds) ≡ check_dimensions ds
    → Outcome ds
    → Outcome (d ∷ ds)
Outcome-skip d ds f e (inl (h, a)) = inl (e ∙ h, (f, a))
Outcome-skip d ds f e (inr (x, h, first)) = inr (x, e ∙ h, later f first)

-- One more dimension.
Outcome-step :
    (n : String) (l : Option ℤ) (u w : ℤ) (ds : List Dimension)
    → Outcome ds
    → Outcome (dimension n l u w ∷ ds)
Outcome-step n none u w ds ih = Outcome-skip _ ds tt (unfold check_dimensions in refl) ih
Outcome-step n (some l) u w ds ih = elim (Fits-cases n l u w ds) [
  | inl (f, e) ↦ Outcome-skip _ ds f e ih
  | inr (positive, past, e) ↦ inr (_, e, over refl refl refl refl positive past)
]

check_dimensions_cases : (ds : List Dimension) → Outcome ds
check_dimensions_cases [] = inl ((unfold check_dimensions in refl), tt)
check_dimensions_cases (d ∷ ds) =
    Outcome-step d.name d.limit d.used d.want ds (check_dimensions_cases ds)

-- The check passes if every dimension fits, and else its error is that of the first one that does not.
pub check_cases :
    (limits : Limits) (usage demand : Amounts)
    → ((check limits usage demand ≡ ok tt) × All Fits (dimensions limits usage demand))
      ⊎ ((e : Exceeded) × (check limits usage demand ≡ err e)
          × FirstOver e (dimensions limits usage demand))
unfolding check
check_cases limits usage demand = check_dimensions_cases (dimensions limits usage demand)

not-Fits :
    (l : Option ℤ) (u w limit : ℤ)
    → FitsIn l u w
    → l ≡ some limit
    → pos 0 <ℤ w
    → limit <ℤ add_i64 u w
    → ⊥
not-Fits none u w limit f e positive past = cc
not-Fits (some l) u w limit f e positive past = ground arith

not-FirstOver : (e : Exceeded) (ds : List Dimension) → All Fits ds → FirstOver e ds → ⊥
not-FirstOver e [] f first = elim first [ ]
not-FirstOver e (d ∷ ds) f (over n l u w positive past) =
    not-Fits d.limit d.used d.want e.limit f.0 l positive past
not-FirstOver e (d ∷ ds) f (later g first) = not-FirstOver e ds f.1 first

-- Nothing is asked for in any dimension.
abbrev pub NonPositive : Amounts → Type 0
NonPositive d =
    (d.vms ≤ℤ pos 0)
    × (d.vcpus ≤ℤ pos 0)
    × (d.memory_mib ≤ℤ pos 0)
    × (d.volumes ≤ℤ pos 0)
    × (d.storage_bytes ≤ℤ pos 0)

FitsIn-nonpositive : (l : Option ℤ) (u w : ℤ) → w ≤ℤ pos 0 → FitsIn l u w
FitsIn-nonpositive none u w h = tt
FitsIn-nonpositive (some l) u w h = inl h

-- A request that asks for no more in any dimension is admitted, whatever is in use and however low the
-- limits are.
pub shrinking_admitted :
    (limits : Limits) (usage demand : Amounts)
    → NonPositive demand
    → check limits usage demand ≡ ok tt
shrinking_admitted limits usage demand (a, b, c, d, e) = elim (check_cases limits usage demand) [
  | inl (h, f) ↦ h
  | inr (x, h, first) ↦ absurd (not-FirstOver x (dimensions limits usage demand) fits first)
]
  where
    fits : All Fits (dimensions limits usage demand)
    fits =
        unfold dimensions in
        (
          FitsIn-nonpositive limits.max_vms _ _ a,
          (
            FitsIn-nonpositive limits.max_vcpus _ _ b,
            (
              FitsIn-nonpositive limits.max_memory_mib _ _ c,
              (
                FitsIn-nonpositive limits.max_volumes _ _ d,
                (FitsIn-nonpositive limits.max_storage_bytes _ _ e, tt),
              ),
            ),
          ),
        )
