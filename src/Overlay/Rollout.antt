-- ===== src/Overlay/Rollout.antt =====
-- Frames of guests while the encryption of the underlay is turned on.
use vquasar.Overlay.{
  OverlayEncryption, guest_mtu, reserves_headroom, is_encrypted, cleartext, ipsec,
}
use vquasar.Base.{true, false, Bool, ℕ, if◌then◌else◌, ◌≤◌, ◌<◌, ◌≡◌, ◌⊎◌, ◌+◌, arith}

-- The bytes that the tunnel itself adds to a guest's packet, as it is and not as it is planned.
abbrev pub wire_overhead : OverlayEncryption → Bool → ℕ
wire_overhead encryption nat_traversal =
    if is_encrypted encryption then (if nat_traversal then 92 else 84) else 50

-- If the underlay's MTU is at least 92, a guest that was seeded in one mode sends no packet that is too
-- large for the underlay in another mode, provided that the first reserved room or the second does not
-- encrypt.
pub rollout_fits :
    (mtu : ℕ) (seeded current : OverlayEncryption) (nat_traversal : Bool)
    → 92 ≤ mtu
    → (reserves_headroom seeded ≡ true) ⊎ (is_encrypted current ≡ false)
    → guest_mtu mtu seeded nat_traversal + wire_overhead current nat_traversal ≤ mtu
unfolding guest_mtu reserves_headroom is_encrypted
rollout_fits mtu seeded current nat_traversal le h = ground arith

-- If the underlay's MTU is at least 92, a guest that was seeded without room for encryption sends packets
-- that are too large for an encrypted underlay.
pub unprepared_overruns :
    (mtu : ℕ) (nat_traversal : Bool)
    → 92 ≤ mtu
    → mtu < guest_mtu mtu cleartext nat_traversal + wire_overhead ipsec nat_traversal
unfolding guest_mtu reserves_headroom is_encrypted
unprepared_overruns mtu nat_traversal le = ground arith
