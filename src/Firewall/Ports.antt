-- ===== src/Firewall/Ports.antt =====
-- `port_masks` of services/agent/src/firewall.rs: a range of ports as values with masks.
pub mod Cover
use vquasar.Base.{
  ℕ, zero, suc, ◌+◌, ◌-◌, ◌/◌, ◌%◌, ◌^◌, List, [], ◌∷◌, ◌==◌, ltb, leb, if◌then◌else◌,
}

-- `u32::trailing_zeros` of a number with at most `fuel` binary digits that is not 0.
unfoldable pub trailing_zeros : ℕ → ℕ → ℕ
trailing_zeros zero a = 0
trailing_zeros (suc fuel) a =
    let rest = trailing_zeros fuel (a / 2) in if a % 2 == 0 then suc rest else 0

unfoldable pub align : ℕ → ℕ
align a = if a == 0 then 2 ^ 16 else 2 ^ trailing_zeros 16 a

-- `while a + size - 1 > b { size >>= 1 }`.
unfoldable pub shrink : ℕ → ℕ → ℕ → ℕ → ℕ
shrink zero a b size = size
shrink (suc fuel) a b size =
    let rest = shrink fuel a b (size / 2) in if ltb b (a + size - 1) then rest else size

-- `(0xFFFF & !(size - 1)) as u16`, where `size - 1` has at most 16 binary digits.
abbrev pub mask_of : ℕ → ℕ
mask_of size = 65535 - (size - 1)

-- The outer loop from `a` on. After the last port, `a` is 65536 or more than `b`, and both tests that
-- end the loop agree.
unfoldable pub masks_from : ℕ → ℕ → ℕ → List (ℕ × ℕ)
masks_from zero a b = []
masks_from (suc fuel) a b =
    let size = shrink 16 a b (align a) in
    let rest = masks_from fuel (a + size) b in
    let next = if ltb 65535 (a + size) then [] else rest in
    if leb a b then (a, mask_of size) ∷ next else []

-- At most one round for each port.
unfoldable pub port_masks : ℕ → ℕ → List (ℕ × ℕ)
port_masks min max = masks_from 65537 min max
