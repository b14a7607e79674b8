-- ===== src/Ipam/Agree.antt =====
-- `next_free` beside `validate`.
use vquasar.Base.Result.{ok}
use vquasar.Base.{List, ℕ, ◌<◌, ◌≡◌, ◌≤◌, arith, false, true, opt_eq, some, inl, inr}
use vquasar.Ipam.{
  IpAddr, NetOps, NetLaws, Subnet, is_v6, to_u128, from_u128, bounds, next_free, validate_address,
  u128_max, is_free, is_ipv6, List, contains_ip, gateway_number, ok,
}
use vquasar.Ipam.Free.{free_for, lo, hi, IsLowest, next_free-IsLowest}

module _ {Net : Type 0} (ops : NetOps Net) (laws : NetLaws ops) (s : Subnet Net)
    (taken : List IpAddr) where
  -- The number of the address that is handed out is that of the loop.
  number_lem : (v : ℕ) → v ≤ hi ops s taken → to_u128 (from_u128 v (is_v6 ops s)) ≡ v
  unfolding from_u128 to_u128 bounds is_v6
  number_lem v le = ground (arith, laws.small s.net, laws.bounded s.net)

  family_lem : (v : ℕ) → is_ipv6 (from_u128 v (is_v6 ops s)) ≡ is_v6 ops s
  unfolding from_u128
  family_lem v = ground arith

  range_lem :
      (v : ℕ)
      → to_u128 (ops.network s.net) < u128_max
      → lo ops s taken ≤ v
      → v ≤ hi ops s taken
      → (to_u128 (ops.network s.net) < v)
        × (v ≤ to_u128 (ops.broadcast s.net))
        × (is_v6 ops s ≡ false → v < to_u128 (ops.broadcast s.net))
  unfolding bounds is_v6
  range_lem v base a b = ground arith

  free_lem :
      (v : ℕ)
      → free_for ops s taken v ≡ true
      → (contains_ip taken (from_u128 v (is_v6 ops s)) ≡ false)
        × (opt_eq (gateway_number ops s) (some v) ≡ false)
  unfolding is_free
  free_lem v h = ground arith

  IsLowest-of :
      (ip : IpAddr)
      → lo ops s taken ≤ u128_max
      → next_free ops s taken ≡ some (ok ip)
      → IsLowest ops s taken ip
  IsLowest-of ip small h = elim (next_free-IsLowest ops s taken small) [
    | inl (ip', q, low) ↦ let same : ip ≡ ip' = cc in rw same low
    | inr (q, none_left) ↦ cc
  ]

  validate_lem :
      (ip : IpAddr)
      → is_ipv6 ip ≡ is_v6 ops s
      → to_u128 (ops.network s.net) < to_u128 ip
      → to_u128 ip ≤ to_u128 (ops.broadcast s.net)
      → (is_v6 ops s ≡ false → to_u128 ip < to_u128 (ops.broadcast s.net))
      → opt_eq (gateway_number ops s) (some (to_u128 ip)) ≡ false
      → validate_address ops s ip ≡ ok tt
  unfolding validate_address is_v6
  validate_lem ip family above below strict gw = ground (arith, laws.contains_iff s.net ip)

  -- If the pool starts at an address, and the subnet's first address is not the last address there is, an
  -- address that `next_free` returns
  -- is not taken, passes `validate`, and lies in the pool.
  pub next_free-validate :
      (ip : IpAddr)
      → lo ops s taken ≤ u128_max
      → to_u128 (ops.network s.net) < u128_max
      → next_free ops s taken ≡ some (ok ip)
      → (contains_ip taken ip ≡ false)
        × (validate_address ops s ip ≡ ok tt)
        × (lo ops s taken ≤ to_u128 ip)
        × (to_u128 ip ≤ hi ops s taken)
  next_free-validate ip small base h =
      let low = IsLowest-of ip small h in
      let v = low.number in
      let n : to_u128 ip ≡ v = rw low.address (number_lem v low.below) in
      let (above, below, strict) = range_lem v base low.above low.below in
      let (fresh, gw) = free_lem v low.free in
      (
        rw low.address fresh,
        validate_lem ip (rw low.address (family_lem v)) (rw n above) (rw n below)
            (λ e. rw n (strict e)) (rw n gw),
        rw n low.above,
        rw n low.below,
      )
