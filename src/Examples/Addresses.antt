-- ===== src/Examples/Addresses.antt =====
-- Addresses in 10.0.0.0/24, with networks given by their first and last number.
use vquasar.Base.{
  refl, none, some, [], ◌∷◌, Bool, List, ℕ, false, if◌then◌else◌, true, ◌≡◌, arith, leb, ◌+◌, ◌↔◌,
  ◌&&◌, ◌≤◌,
}
use vquasar.Ipam.{IpAddr, NetOps, Subnet, to_u128, NetLaws, v4, is_ipv6, v6}

-- An IPv4 network of 256 addresses, by the number of its first one in units of 256.
abbrev Net : Type 0
Net = Bool

abbrev base_of : Net → ℕ
base_of n = if n then 167772160 else 167772416

abbrev contains_v4 : Net → IpAddr → Bool
contains_v4 n (v4 a) = leb (base_of n) a && leb a (base_of n + 255)
contains_v4 n (v6 a) = false

abbrev ops : NetOps Net
ops = record {
  is_v6_net = λ n. false;
  network = λ n. v4 (base_of n);
  broadcast = λ n. v4 (base_of n + 255);
  contains = contains_v4;
  prefix_len = λ n. 24;
}

contains_v4_iff :
    (n : Net) (ip : IpAddr)
    → (contains_v4 n ip ≡ true)
      ↔ ((is_ipv6 ip ≡ false) × (base_of n ≤ to_u128 ip) × (to_u128 ip ≤ base_of n + 255))
unfolding to_u128
contains_v4_iff n (v4 a) = ground arith
contains_v4_iff n (v6 a) = ground arith

laws : NetLaws ops
unfolding to_u128
laws = record {
  network_family = λ n. refl;
  broadcast_family = λ n. refl;
  ordered = λ n. omega arith;
  small = λ n e. ground arith;
  bounded = λ n. ground arith;
  contains_iff = contains_v4_iff;
}

-- The gateway is 10.0.0.1, and 10.0.0.2 is taken.
abbrev subnet : Subnet Net
subnet = record { net = true; gateway = some (v4 167772161); pool_start = none; pool_end = none }

abbrev taken : List IpAddr
taken = v4 167772162 ∷ []

abbrev ip : IpAddr
ip = v4 167772163
