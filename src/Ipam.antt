-- ===== src/Ipam.antt =====
-- services/control/src/ipam.rs: static addresses for NICs. The `IpNet` of the ipnet crate is a
-- parameter, the record `NetOps`, with what ipnet documents in `NetLaws`.
pub mod Free
pub mod Agree
use vquasar.Base.{
  ℕ, zero, suc, ◌+◌, ◌-◌, ◌%◌, ◌^◌, ◌≤◌, ◌<◌, Bool, true, false, Option, none, some, List, [], ◌∷◌,
  not, ◌&&◌, ◌||◌, ◌==◌, leb, ltb, opt_eq, if◌then◌else◌, any, min, max, ◌≡◌, ◌↔◌, bool_eq,
}
use mathlib.Core.Option
use vquasar.Base.Result.{Result, ok, err}

-- An address is the number that `u32::from` or `u128::from` gives.
pub data IpAddr : Type 0 where
  v4 : ℕ → IpAddr
  v6 : ℕ → IpAddr

unfoldable pub to_u128 : IpAddr → ℕ
to_u128 (v4 a) = a
to_u128 (v6 a) = a

unfoldable pub from_u128 : ℕ → Bool → IpAddr
from_u128 v is6 = if is6 then v6 v else v4 (v % 2 ^ 32)

abbrev pub is_ipv6 : IpAddr → Bool
is_ipv6 (v4 a) = false
is_ipv6 (v6 a) = true

abbrev pub ip_eq : IpAddr → IpAddr → Bool
ip_eq (v4 a) (v4 b) = a == b
ip_eq (v6 a) (v6 b) = a == b
ip_eq _ _ = false

-- `taken.contains(&ip)`.
abbrev pub contains_ip : List IpAddr → IpAddr → Bool
contains_ip taken ip = any (ip_eq ip) taken

abbrev pub u128_max : ℕ
u128_max = 2 ^ 128 - 1

-- `v.saturating_add(1)`; `saturating_sub` is `-` on ℕ.
abbrev pub saturating_suc : ℕ → ℕ
saturating_suc v = min (v + 1) u128_max

pub record NetOps (Net : Type 0) : Type 0 where
  pub is_v6_net : Net → Bool
  pub network : Net → IpAddr
  pub broadcast : Net → IpAddr
  pub contains : Net → IpAddr → Bool
  pub prefix_len : Net → ℕ

-- A network is the range from its first address to its last one, both of its family.
pub record NetLaws {Net : Type 0} (ops : NetOps Net) : Type 0 where
  pub network_family : (n : Net) → is_ipv6 (ops.network n) ≡ ops.is_v6_net n
  pub broadcast_family : (n : Net) → is_ipv6 (ops.broadcast n) ≡ ops.is_v6_net n
  pub ordered : (n : Net) → to_u128 (ops.network n) ≤ to_u128 (ops.broadcast n)
  pub small : (n : Net) → ops.is_v6_net n ≡ false → to_u128 (ops.broadcast n) < 2 ^ 32
  pub bounded : (n : Net) → to_u128 (ops.broadcast n) ≤ u128_max
  pub contains_iff :
      (n : Net) (ip : IpAddr)
      → (ops.contains n ip ≡ true) ↔ (
          (is_ipv6 ip ≡ ops.is_v6_net n)
          × (to_u128 (ops.network n) ≤ to_u128 ip)
          × (to_u128 ip ≤ to_u128 (ops.broadcast n)))

pub data IpamError (Net : Type 0) : Type 0 where
  out_of_range : IpAddr → Net → IpamError Net
  reserved : IpAddr → IpamError Net
  exhausted : Net → IpamError Net

pub record Subnet (Net : Type 0) : Type 0 where
  pub net : Net
  pub gateway : Option IpAddr
  pub pool_start : Option IpAddr
  pub pool_end : Option IpAddr

-- Whether the body of the loop returns `v`: it is not the gateway, and not taken.
unfoldable pub is_free : Option ℕ → Bool → List IpAddr → ℕ → Bool
is_free gw is6 taken v = not (opt_eq (some v) gw) && not (contains_ip taken (from_u128 v is6))

-- The `while` loop from `v` on; `none` means that the fuel ran out, and `some none` that the loop
-- ended with no address.
unfoldable pub scan : (ℕ → Bool) → ℕ → ℕ → ℕ → Option (Option ℕ)
scan free hi zero v = none
scan free hi (suc fuel) v =
    let rest = scan free hi fuel (saturating_suc v) in
    if leb v hi
    then (if free v
        then some (some v)
        else if saturating_suc v == u128_max
        then some none
        else rest)
    else some none

module _ {Net : Type 0} (ops : NetOps Net) where
  open ops use {is_v6_net, network, broadcast, contains, prefix_len}

  unfoldable pub is_v6 : Subnet Net → Bool
  is_v6 s = is_v6_net s.net

  unfoldable pub subnet_prefix_len : Subnet Net → ℕ
  subnet_prefix_len s = prefix_len s.net

  abbrev from_pool : (ℕ → ℕ → ℕ) → ℕ → Option IpAddr → ℕ
  from_pool f bound none = bound
  from_pool f bound (some a) = f bound (to_u128 a)

  unfoldable pub bounds : Subnet Net → ℕ × ℕ
  unfolding is_v6
  bounds s =
      let base = to_u128 (network s.net) in
      let last = to_u128 (broadcast s.net) in
      let lo = min (base + 1) u128_max in
      let hi = if is_v6 s then last else last - 1 in
      (from_pool max lo s.pool_start, from_pool min hi s.pool_end)

  abbrev pub gateway_number : Subnet Net → Option ℕ
  gateway_number s = Option.map to_u128 s.gateway

  -- What follows the loop: the address, or `Exhausted`.
  abbrev pub outcome : Subnet Net → Option (Option ℕ) → Option (Result (IpamError Net) IpAddr)
  outcome s none = none
  outcome s (some none) = some (err (exhausted s.net))
  outcome s (some (some v)) = some (ok (from_u128 v (is_v6 s)))

  unfoldable pub next_free : Subnet Net → List IpAddr → Option (Result (IpamError Net) IpAddr)
  next_free s taken =
      let (lo, hi) = bounds s in
      let free = is_free (gateway_number s) (is_v6 s) taken in
      outcome s (scan free hi (suc (suc hi - lo)) lo)

  unfoldable pub validate_address : Subnet Net → IpAddr → Result (IpamError Net) (Unit {0})
  unfolding is_v6
  validate_address s ip =
      if not (bool_eq (is_v6 s) (is_ipv6 ip)) || not (contains s.net ip)
      then err (out_of_range ip s.net)
      else let v = to_u128 ip in
        if (v == to_u128 (network s.net))
          || ((not (is_v6 s) && (v == to_u128 (broadcast s.net)))
              || opt_eq (gateway_number s) (some v))
        then err (reserved ip)
        else ok tt
