-- ===== src/Firewall/Rules.antt =====
-- The packets that a rule's matches let through.
use vquasar.Firewall.Ports.{port_masks}
use mathlib.Core.Path.{ap₂, ap}
use mathlib.Core.Bool.{true, false}
use vquasar.Firewall.{to_nic, from_nic, Keyword, rule_matches, Field, port_masks, with_port}
use vquasar.Base.Text.{trim}
use vquasar.Firewall.{
  Dir, SecRule, remote_match, port_field, to_nic, has_ports, proto_of, trim, low_port, high_port,
}
use vquasar.Base.{
  refl, true, false, Bool, String, ℕ, not, str_eq, ◌≡◌, arith, ◌&&◌, ◌||◌, leb, Bool-cases, ◌==◌,
  inr, inl, ==_iff, same_test, List, ◌≤◌, any, map, ◌∷◌, [], ◌↔◌, ◌∙◌, ap,
}
use vquasar.Firewall.Ports.Cover.{matches_port, port_masks_cover}
use vquasar.Firewall.Switch.{matches, field_holds, Switch, SwitchLaws, Packet, covers}

pub and_false : (c : Bool) → false ≡ (c && false)
and_false true = refl
and_false false = refl

pub or_false : (c : Bool) → (c || false) ≡ c
or_false true = refl
or_false false = refl

range_test :
    (lo hi d : ℕ) (b : Bool) → (b ≡ true) ↔ ((lo ≤ d) × (d ≤ hi)) → b ≡ (leb lo d && leb d hi)
range_test lo hi d b h =
    same_test b (leb lo d && leb d hi)
      ((λ e. let (x, y) = h.0 e in ground arith), λ e. h.1 (ground arith, ground arith))

factor : (c a r s : Bool) → ((c && (a && s)) || (c && (r && s))) ≡ (c && ((a || r) && s))
factor false a r s = refl
factor true true r true = refl
factor true true true false = refl
factor true true false false = refl
factor true false r s = refl

abbrev pub in_ports : SecRule → Packet → Bool
in_ports r p = not (has_ports r) || (leb (low_port r) p.dst_port && leb p.dst_port (high_port r))

module _ (switch : Switch) (laws : SwitchLaws switch) where
  -- The remote end of a packet, by the direction of the rule.
  abbrev pub remote_of : Dir → Packet → String
  remote_of to_nic p = p.src_addr
  remote_of from_nic p = p.dst_addr

  abbrev pub from_remote : Dir → SecRule → Packet → Bool
  from_remote dir r p =
      str_eq (trim r.remote_cidr) "" || switch.in_cidr (remote_of dir p) (trim r.remote_cidr)

  -- What a rule permits: its protocol, from or to its remote end, at one of its ports.
  unfoldable pub permits : Dir → SecRule → Packet → Bool
  permits dir r p =
      covers (proto_of r.protocol r.ipv6) p.kind && (in_ports r p && from_remote dir r p)

  remote_lem :
      (dir : Dir) (r : SecRule) (p : Packet)
      → matches switch p (remote_match dir r) ≡ from_remote dir r p
  unfolding field_holds
  remote_lem to_nic r p = ground arith
  remote_lem from_nic r p = ground arith

  port_lem :
      (p : Packet) (vm : ℕ × ℕ)
      → field_holds switch p (port_field vm) ≡ switch.masked p.dst_port vm.0 vm.1
  unfolding field_holds
  port_lem p (v, m) = elim (Bool-cases (m == 0xFFFF)) [
    | inr partial ↦ rw partial refl
    | inl whole ↦
        let exact = laws.masks.block p.dst_port v 0 (omega arith) in
        let full : m ≡ 0xFFFF = (==_iff m 0xFFFF).0 whole in
        rw (whole, full)
          (same_test (p.dst_port == v) (switch.masked p.dst_port v 0xFFFF) (
            (λ h. let same = (==_iff p.dst_port v).0 h in exact.1 (omega arith)),
            λ h. let same = exact.0 h in (==_iff p.dst_port v).1 (omega arith),
          ))
  ]

  masks_lem :
      (p : Packet) (proto : Keyword) (src : List Field) (ms : List (ℕ × ℕ))
      → any (matches switch p) (map (with_port proto src) ms) ≡ (
          covers proto p.kind
          && (any (matches_port switch.masked laws.masks p.dst_port) ms && matches switch p src))
  unfolding field_holds
  masks_lem p proto src [] = and_false (covers proto p.kind)
  masks_lem p proto src (vm ∷ ms) =
      rw (port_lem p vm, masks_lem p proto src ms)
        (factor (covers proto p.kind) (switch.masked p.dst_port vm.0 vm.1) _ (matches switch p src))

  -- A packet matches one of the rule's matches exactly if the rule permits it.
  pub rule_lem :
      (dir : Dir) (r : SecRule) (p : Packet)
      → high_port r ≤ 65535
      → any (matches switch p) (rule_matches r dir) ≡ permits dir r p
  unfolding rule_matches permits field_holds
  rule_lem dir r p top = elim (Bool-cases (has_ports r)) [
    | inl some_ports ↦
        let cover =
          port_masks_cover switch.masked laws.masks (low_port r) (high_port r) p.dst_port top in
        let masks =
          masks_lem p (proto_of r.protocol r.ipv6) (remote_match dir r)
            (port_masks (low_port r) (high_port r)) in
        let src = remote_lem dir r p in
        let range = range_test (low_port r) (high_port r) p.dst_port _ cover in
        rw some_ports
          (masks ∙ ap₂ (λ a b. covers (proto_of r.protocol r.ipv6) p.kind && (a && b)) range src)
    | inr any_port ↦ rw any_port (
        or_false _ ∙ ap (λ b. covers (proto_of r.protocol r.ipv6) p.kind && b) (remote_lem dir r p))
  ]
