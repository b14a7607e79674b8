-- ===== src/Overlay.antt =====
-- services/control/src/overlay.rs: the MTU of a guest on an overlay, on `u32` numbers.
pub mod Rollout
use vquasar.Base.{ℕ, String, Bool, true, false, ◌+◌, ◌-◌, if◌then◌else◌}

abbrev pub vxlan_overhead : ℕ
vxlan_overhead = 50

abbrev pub esp_overhead : ℕ
esp_overhead = 34

abbrev pub nat_t_overhead : ℕ
nat_t_overhead = 8

pub data OverlayEncryption : Type 0 where
  cleartext reserve ipsec : OverlayEncryption

unfoldable pub reserves_headroom : OverlayEncryption → Bool
reserves_headroom cleartext = false
reserves_headroom reserve = true
reserves_headroom ipsec = true

unfoldable pub is_encrypted : OverlayEncryption → Bool
is_encrypted cleartext = false
is_encrypted reserve = false
is_encrypted ipsec = true

unfoldable pub name_of : OverlayEncryption → String
name_of cleartext = "none"
name_of reserve = "reserve"
name_of ipsec = "ipsec"

-- The overhead that `guest_mtu` adds up. It cannot pass 92, so that it does not wrap around.
abbrev pub overhead : OverlayEncryption → Bool → ℕ
overhead encryption nat_traversal =
    if reserves_headroom encryption
    then (if nat_traversal
        then vxlan_overhead + esp_overhead + nat_t_overhead
        else vxlan_overhead + esp_overhead)
    else vxlan_overhead

-- `saturating_sub` is `-` on ℕ.
unfoldable pub guest_mtu : ℕ → OverlayEncryption → Bool → ℕ
guest_mtu underlay_mtu encryption nat_traversal = underlay_mtu - overhead encryption nat_traversal
