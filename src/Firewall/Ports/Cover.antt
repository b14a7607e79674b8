-- ===== src/Firewall/Ports/Cover.antt =====
-- The ports that the masks of a range match.
use vquasar.Firewall.Ports.{align, trailing_zeros, mask_of, shrink, masks_from, port_masks}
use mathlib.Core.Bool.{true, false}
use native.Mathlib.Nat.{
  pow-suc, mul_assoc, mul_comm, one-le-pow, pow-le-pow_right, mul-div_cancel, le-div_iff_mul-le,
  div-lt_iff_lt-mul,
}
use vquasar.Base.{
  ℕ, zero, suc, ◌≤◌, refl, true, Bool, ◌≡◌, ◌*◌, ◌^◌, arith, ◌↔◌, ◌/◌, Bool-cases, sym, ◌<◌, ◌%◌,
  ◌+◌, ◌==◌, inl, inr, ◌∙◌, ap, ltb, any, ◌-◌, leb, List, if◌then◌else◌, ◌||◌, [],
}

-- What OpenFlow documents of a mask whose zero bits are the lowest `k` of 16: the other bits agree.
pub record MaskLaw (masked : ℕ → ℕ → ℕ → Bool) : Type 0 where
  pub block :
      (port value k : ℕ)
      → k ≤ 16
      → (masked port value (mask_of (2 ^ k)) ≡ true) ↔ (port / 2 ^ k ≡ value / 2 ^ k)

-- A power of two, at most 2 ^ 16, that divides `a`.
record IsBlock (a size : ℕ) : Type 0 where
  exponent : ℕ
  small : exponent ≤ 16
  power : size ≡ 2 ^ exponent
  quotient : ℕ
  divides : a ≡ quotient * 2 ^ exponent

twice_power : (q t : ℕ) → q * 2 ^ suc t ≡ q * 2 ^ t * 2
twice_power q t = rw (pow-suc 2 t) (sym (mul_assoc q (2 ^ t) 2))

zeros_lem :
    (fuel a : ℕ) → (q : ℕ) × (a ≡ q * 2 ^ trailing_zeros fuel a) × (trailing_zeros fuel a ≤ fuel)
unfolding trailing_zeros
zeros_lem zero a = (a, omega arith, omega arith)
zeros_lem (suc fuel) a = elim (Bool-cases (a % 2 == 0)) [
  | inr odd ↦ rw odd (a, omega arith, omega arith)
  | inl even ↦
      let (q, e, le) = zeros_lem fuel (a / 2) in
      let half : a ≡ a / 2 * 2 = ground arith in
      rw even (
        q,
        half ∙ ap (λ h. h * 2) e ∙ sym (twice_power q (trailing_zeros fuel (a / 2))),
        omega arith,
      )
]

align-IsBlock : (a : ℕ) → IsBlock a (align a)
unfolding align
align-IsBlock a = elim (Bool-cases (a == 0)) [
  | inl zero_port ↦ rw zero_port (record {
    exponent = 16;
    small = omega arith;
    power = refl;
    quotient = 0;
    divides = ground arith;
  })
  | inr positive ↦
      let (q, e, le) = zeros_lem 16 a in
      rw positive (record {
        exponent = trailing_zeros 16 a;
        small = le;
        power = refl;
        quotient = q;
        divides = e;
      })
]

-- A block of more than one port in halves.
half-IsBlock :
    (a size : ℕ) → IsBlock a size → 1 < size → IsBlock a (size / 2) × (size / 2 + size / 2 ≡ size)
half-IsBlock a size h big = go h.exponent h.small h.power h.quotient h.divides
  where
    go :
        (k : ℕ)
        → k ≤ 16
        → size ≡ 2 ^ k
        → (q : ℕ) → a ≡ q * 2 ^ k
        → IsBlock a (size / 2) × (size / 2 + size / 2 ≡ size)
    go zero le e q d = absurd (omega arith)
    go (suc k) le e q d =
        let double : size ≡ 2 ^ k * 2 = e ∙ pow-suc 2 k in
        (
          record {
            exponent = k;
            small = omega arith;
            power = omega arith;
            quotient = q * 2;
            divides =
                d
                ∙ ap (λ s. q * s) (pow-suc 2 k ∙ mul_comm (2 ^ k) 2)
                ∙ sym (mul_assoc q 2 (2 ^ k));
          },
          omega arith,
        )

IsBlock-positive : (a size : ℕ) → IsBlock a size → 1 ≤ size
IsBlock-positive a size h = rw h.power (one-le-pow h.exponent 2 (omega arith))

-- The block after the inner loop fits, if the loop has a round for each halving.
shrink_lem :
    (fuel a b size : ℕ)
    → a ≤ b
    → IsBlock a size
    → size ≤ 2 ^ fuel
    → IsBlock a (shrink fuel a b size) × (a + shrink fuel a b size ≤ b + 1)
unfolding shrink
shrink_lem zero a b size le h enough = (h, omega arith)
shrink_lem (suc fuel) a b size le h enough = elim (Bool-cases (ltb b (a + size - 1))) [
  | inl over ↦
      let big : 1 < size = ground arith in
      let (half, double) = half-IsBlock a size h big in
      let power = pow-suc 2 fuel in rw over (shrink_lem fuel a b (size / 2) le half (omega arith))
  | inr fits ↦ let positive = IsBlock-positive a size h in rw fits (h, ground arith)
]

-- The ports that the mask of a block matches.
block_lem :
    (masked : ℕ → ℕ → ℕ → Bool) (law : MaskLaw masked) (p a size : ℕ)
    → IsBlock a size
    → (masked p a (mask_of size) ≡ true) ↔ ((a ≤ p) × (p < a + size))
block_lem masked law p a size h =
    let S = 2 ^ h.exponent in
    let positive : 0 < S = one-le-pow h.exponent 2 (omega arith) in
    let e : a / S ≡ h.quotient = ap (λ n. n / S) h.divides ∙ mul-div_cancel h.quotient positive in
    let above = le-div_iff_mul-le {k = S} {x = h.quotient} {y = p} positive in
    let below = div-lt_iff_lt-mul {k = S} {x = p} {y = suc h.quotient} positive in
    let agrees = law.block p a h.exponent h.small in
    let next : suc h.quotient * S ≡ h.quotient * S + S = grind arith in
    let d = h.divides in
    rw h.power (
      (λ m.
          let same = agrees.0 m ∙ e in
          let lower = above.0 (omega arith) in
          let upper = below.0 (omega arith) in (omega arith, omega arith)),
      λ (lower, upper).
          let ge = above.1 (omega arith) in
          let lt = below.1 (omega arith) in agrees.1 (omega arith),
    )

align_small : (a : ℕ) → align a ≤ 2 ^ 16
align_small a =
    let h = align-IsBlock a in
    let grow = pow-le-pow_right {n = 2} (omega arith) h.small in rw h.power grow

module _ (masked : ℕ → ℕ → ℕ → Bool) (law : MaskLaw masked) (p : ℕ) where
  abbrev pub matches_port : ℕ × ℕ → Bool
  matches_port (value, mask) = masked p value mask

  -- The rounds after the first one, if there are any.
  next_iff :
      (a b size : ℕ) (rest : List (ℕ × ℕ))
      → b ≤ 65535
      → (any matches_port rest ≡ true) ↔ ((a + size ≤ p) × (p ≤ b))
      → (any matches_port (if ltb 65535 (a + size) then [] else rest) ≡ true)
        ↔ ((a + size ≤ p) × (p ≤ b))
  next_iff a b size rest top h = elim (Bool-cases (ltb 65535 (a + size))) [
    | inl last ↦ rw last ((λ m. cc), λ q. absurd (ground arith))
    | inr more ↦ rw more h
  ]

  join_iff :
      (here later : Bool) (a b size : ℕ)
      → (here ≡ true) ↔ ((a ≤ p) × (p < a + size))
      → a + size ≤ b + 1
      → (later ≡ true) ↔ ((a + size ≤ p) × (p ≤ b))
      → ((here || later) ≡ true) ↔ ((a ≤ p) × (p ≤ b))
  join_iff true later a b size h fits t =
      ((λ m. let (x, y) = h.0 refl in (omega arith, omega arith)), λ q. refl)
  join_iff false later a b size h fits t = (
    (λ m. let (x, y) = t.0 m in (omega arith, omega arith)),
    λ (x, y). elim (Bool-cases (ltb p (a + size))) [
      | inl inside ↦ absurd (not_here (h.1 (x, ground arith)))
      | inr beyond ↦ t.1 (ground arith, y)
    ],
  )
    where
      not_here : false ≡ true → ⊥
      not_here e = cc

  masks_lem :
      (fuel a b : ℕ)
      → b ≤ 65535
      → b < a + fuel
      → (any matches_port (masks_from fuel a b) ≡ true) ↔ ((a ≤ p) × (p ≤ b))
  unfolding masks_from
  masks_lem zero a b top enough = ((λ h. cc), λ h. absurd (omega arith))
  masks_lem (suc fuel) a b top enough = elim (Bool-cases (leb a b)) [
    | inr over ↦ rw over ((λ h. cc), λ h. absurd (ground arith))
    | inl within ↦
        let le : a ≤ b = ground arith in
        let (block, fits) = shrink_lem 16 a b (align a) le (align-IsBlock a) (align_small a) in
        let size = shrink 16 a b (align a) in
        let positive = IsBlock-positive a size block in
        let here = block_lem masked law p a size block in
        rw within (
          join_iff (masked p a (mask_of size)) _ a b size here fits (
            next_iff a b size (masks_from fuel (a + size) b) top
              (masks_lem fuel (a + size) b top (omega arith))))
  ]

-- One of the masks of port_masks matches a port exactly if the port lies in the range, if the range
-- ends at 65535 or below and a mask without its lowest bits compares the others.
pub port_masks_cover :
    (masked : ℕ → ℕ → ℕ → Bool) (law : MaskLaw masked) (lo hi p : ℕ)
    → hi ≤ 65535
    → (any (matches_port masked law p) (port_masks lo hi) ≡ true) ↔ ((lo ≤ p) × (p ≤ hi))
unfolding port_masks
port_masks_cover masked law lo hi p top = masks_lem masked law p 65537 lo hi top (omega arith)
