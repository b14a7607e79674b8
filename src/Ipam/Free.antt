-- ===== src/Ipam/Free.antt =====
-- The loop of `next_free`, and the address that it looks for.
use vquasar.Base.{
  ℕ, zero, suc, ◌+◌, ◌-◌, ◌≤◌, ◌<◌, Bool, true, false, Option, none, some, List, ◌≡◌, ◌⊎◌, inl, inr,
  arith, min, Bool-cases, ◌==◌, leb, ltb, refl, ap,
}
use vquasar.Base.Result.{ok, err}
use vquasar.Ipam.{
  u128_max, saturating_suc, scan, NetOps, Subnet, IpAddr, bounds, from_u128, is_free, next_free,
  exhausted, gateway_number, is_v6, outcome,
}

-- No number from `v` up to below `u` passes the test.
abbrev pub NoneFrom : (ℕ → Bool) → ℕ → ℕ → Type 0
NoneFrom free v u = (w : ℕ) → v ≤ w → w < u → free w ≡ false

abbrev Found : (ℕ → Bool) → ℕ → ℕ → Option (Option ℕ) → Type 0
Found free v hi r =
    (u : ℕ) × (r ≡ some (some u)) × (free u ≡ true) × (v ≤ u) × (u ≤ hi) × NoneFrom free v u

-- The loop leaves 2 ^ 128 - 1 aside.
abbrev Empty : (ℕ → Bool) → ℕ → ℕ → Option (Option ℕ) → Type 0
Empty free v hi r = (r ≡ some none) × NoneFrom free v (min (suc hi) u128_max)

module _ (free : ℕ → Bool) (hi : ℕ) where
  NoneFrom-step : (v u : ℕ) → free v ≡ false → NoneFrom free (v + 1) u → NoneFrom free v u
  NoneFrom-step v u e h w le lt = elim (Bool-cases (v == w)) [
    | inl q ↦ ground (arith)
    | inr q ↦ h w (ground arith) lt
  ]

  abbrev Ends : ℕ → Option (Option ℕ) → Type 0
  Ends v r = Found free v hi r ⊎ Empty free v hi r

  Ends-step : (v : ℕ) {r : Option (Option ℕ)} → free v ≡ false → Ends (v + 1) r → Ends v r
  Ends-step v e (inl (u, q, yes_free, le, top, below)) =
      inl (u, q, yes_free, omega arith, top, NoneFrom-step v u e below)
  Ends-step v e (inr (q, below)) = inr (q, NoneFrom-step v _ e below)

  -- One round that does not end the loop.
  round :
      (fuel v : ℕ)
      → v ≤ hi
      → free v ≡ false
      → v + 1 < u128_max
      → scan free hi (suc fuel) v ≡ scan free hi fuel (v + 1)
  unfolding scan
  round fuel v le e lt = let s : saturating_suc v ≡ v + 1 = omega arith in rw s (ground (arith))

  -- The round at the last number but one, or the last.
  last_round :
      (fuel v : ℕ)
      → free v ≡ false
      → v ≤ u128_max
      → u128_max ≤ v + 1
      → scan free hi (suc fuel) v ≡ some none
  unfolding scan
  last_round fuel v e le ge =
      let s : saturating_suc v ≡ u128_max = omega arith in rw s (ground (arith))

  pub scan_lem :
      (fuel v : ℕ) → v ≤ u128_max → suc hi ≤ fuel + v → Ends v (scan free hi (suc fuel) v)
  scan_lem zero v le enough = inr ((unfold scan in ground arith), λ w p q. absurd (omega arith))
  scan_lem (suc fuel) v le enough = elim (Bool-cases (leb v hi)) [
    | inr out ↦ inr ((unfold scan in ground arith), λ w p q. absurd (ground arith))
    | inl within ↦ elim (Bool-cases (free v)) [
      | inl yes_free ↦ inl (
        v,
        (unfold scan in ground arith),
        yes_free,
        omega arith,
        ground arith,
        λ w p q. absurd (omega arith),
      )
      | inr e ↦ elim (Bool-cases (ltb (v + 1) u128_max)) [
        | inl lt ↦
            rw (round (suc fuel) v (ground arith) e (ground arith))
              (Ends-step v e (scan_lem fuel (v + 1) (ground arith) (omega arith)))
        | inr ge ↦ inr (
          last_round (suc fuel) v e le (ground arith),
          λ w p q. let same : w ≡ v = ground arith in rw same e,
        )
      ]
    ]
  ]

module _ {Net : Type 0} (ops : NetOps Net) (s : Subnet Net) (taken : List IpAddr) where
  -- What `next_free` looks for: a number that is not the gateway's, and whose address is not taken.
  abbrev pub free_for : ℕ → Bool
  free_for = is_free (gateway_number ops s) (is_v6 ops s) taken

  abbrev pub lo : ℕ
  lo = (bounds ops s).0

  abbrev pub hi : ℕ
  hi = (bounds ops s).1

  pub record IsLowest (ip : IpAddr) : Type 0 where
    pub number : ℕ
    pub address : ip ≡ from_u128 number (is_v6 ops s)
    pub free : free_for number ≡ true
    pub above : lo ≤ number
    pub below : number ≤ hi
    pub lowest : NoneFrom free_for lo number

  pub record IsExhausted : Type 0 where
    pub none_free : NoneFrom free_for lo (min (suc hi) u128_max)

  pub next_free-IsLowest :
      lo ≤ u128_max
      → ((ip : IpAddr) × (next_free ops s taken ≡ some (ok ip)) × IsLowest ip)
        ⊎ ((next_free ops s taken ≡ some (err (exhausted s.net))) × IsExhausted)
  next_free-IsLowest small = elim (scan_lem free_for hi (suc hi - lo) lo small (omega arith)) [
    | inl (u, q, f, le, top, below) ↦ inl (
      from_u128 u (is_v6 ops s),
      (unfold next_free in ap (outcome ops s) q),
      record { number = u; address = refl; free = f; above = le; below = top; lowest = below },
    )
    | inr (q, below) ↦
        inr ((unfold next_free in ap (outcome ops s) q), record { none_free = below })
  ]
