-- ===== src/Groups/Allowed.antt =====
-- Which new connections a NIC's groups allow.
use vquasar.Base.{any_ext}
use vquasar.Base.{any-keep}
use vquasar.Base.{any-false, any-map, any_append, any-keep}
use vquasar.Base.Text.{trim, trim-is_blank, is_blank-append}
use vquasar.Firewall.Switch.{Switch, SwitchLaws, Packet, covers}
use vquasar.Groups.Binding.{remotes, addresses_in_groups, expand_all}
use vquasar.Groups.{
  expand, group_addresses, base_rule, host_cidr, for_member, of_family, addresses, expand_rule,
  sec_rule, SecurityGroupRule, SecurityRule, GroupMembers, trim, ◌<>◌,
}
use vquasar.Firewall.{Dir, proto_of}
use vquasar.Firewall.Rules.{in_ports, permits, from_remote, remote_of, or_false}
use mathlib.Core.Path.{ap₂}
use vquasar.Groups.Binding.{add_remote}
use vquasar.Base.{
  [], ◌∷◌, none, some, true, false, refl, Option, Bool, List, ℕ, Memᴰ, any, elem, ◌≡◌, Bool-cases,
  keep, ◌||◌, ap, inl, ◌&&◌, String, if◌then◌else◌, inr, ◌==◌, ==_iff, str_eq, arith, ◌∙◌,
  any-false, any-map, any_append,
}

other_lem :
    (groups : List ℕ) (a g : ℕ) → elem a groups ≡ false → elem g groups ≡ true → (a == g) ≡ false
other_lem groups a g e m = elim (Bool-cases (a == g)) [
  | inr differ ↦ differ
  | inl same ↦ let q = (==_iff a g).0 same in absurd (both (rw q at e) m)
]
  where
    both : {b : Bool} → b ≡ false → b ≡ true → ⊥
    both x y = cc

-- The addresses of the groups that are asked for.
addresses_lem :
    (groups : List ℕ) (g : ℕ) (rows : GroupMembers)
    → elem g groups ≡ true
    → addresses (addresses_in_groups rows groups) g ≡ addresses rows g
unfolding addresses_in_groups
addresses_lem groups g [] m = refl
addresses_lem groups g ((gid, ip) ∷ rows) m = elim (Bool-cases (elem gid groups)) [
  | inl e ↦ rw e (ap (λ r. if gid == g then ip ∷ r else r) (addresses_lem groups g rows m))
  | inr e ↦ rw (e, other_lem groups gid g e m) (addresses_lem groups g rows m)
]

remotes_lem :
    (r : SecurityGroupRule) (g : ℕ) (rs : List SecurityGroupRule)
    → r.remote_group_id ≡ some g
    → Memᴰ r rs
    → elem g (remotes rs) ≡ true
remotes_lem r g [] e m = elim m [ ]
remotes_lem r g (x ∷ rs) e (Memᴰ.head q) =
    rw (← ap (λ y. y.remote_group_id) q, e, (==_iff g g).1 refl) refl
remotes_lem r g (x ∷ rs) e (Memᴰ.tail m) =
    later x.remote_group_id (remotes rs) (remotes_lem r g rs e m)
  where
    later : (o : Option ℕ) (gs : List ℕ) → elem g gs ≡ true → elem g (add_remote o gs) ≡ true
    later none gs h = h
    later (some a) gs h = ground (arith, h)

pub same_addresses :
    (rows : GroupMembers) (rs : List SecurityGroupRule) (r : SecurityGroupRule)
    → Memᴰ r rs
    → group_addresses (addresses_in_groups rows (remotes rs)) r.remote_group_id
      ≡ group_addresses rows r.remote_group_id
same_addresses rows rs r m = by_group r.remote_group_id refl
  where
    by_group :
        (o : Option ℕ)
        → r.remote_group_id ≡ o
        → group_addresses (addresses_in_groups rows (remotes rs)) o ≡ group_addresses rows o
    by_group none e = refl
    by_group (some g) e = addresses_lem (remotes rs) g rows (remotes_lem r g rs e m)

module _ (switch : Switch) (laws : SwitchLaws switch) (rows : GroupMembers) (dir : Dir)
    (p : Packet) where
  -- Whether a packet's remote end is a member of the group, by an address of the rule's family.
  abbrev pub is_member : Bool → List String → Bool
  is_member v6 ips =
      any
        (λ ip.
          of_family v6 ip && switch.in_cidr (remote_of switch laws dir p) (trim (host_cidr v6 ip)))
        ips

  abbrev pub remote_allowed : SecurityRule → Option ℕ → Bool
  remote_allowed base none = from_remote switch laws dir (sec_rule base) p
  remote_allowed base (some g) = is_member base.ipv6 (addresses rows g)

  -- What a rule of a group allows: its protocol, at its ports, from or to its remote end.
  unfoldable pub allows : SecurityGroupRule → Bool
  allows r =
      let base = base_rule r in
      covers (proto_of base.protocol base.ipv6) p.kind
      && (in_ports (sec_rule base) p && remote_allowed base r.remote_group_id)

  abbrev let_through : SecurityRule → Bool
  let_through r = permits switch laws dir (sec_rule r) p

  visible_cidr : (v6 : Bool) (ip : String) → str_eq (trim (host_cidr v6 ip)) "" ≡ false
  visible_cidr true ip = trim-is_blank (ip <> "/128") (is_blank-append ip "/128" refl)
  visible_cidr false ip = trim-is_blank (ip <> "/32") (is_blank-append ip "/32" refl)

  member_lem :
      (r : SecurityRule) (ip : String)
      → let_through (for_member r ip) ≡ (
          covers (proto_of r.protocol r.ipv6) p.kind
          && (in_ports (sec_rule r) p
              && switch.in_cidr (remote_of switch laws dir p) (trim (host_cidr r.ipv6 ip))))
  unfolding permits
  member_lem r ip = rw (visible_cidr r.ipv6 ip) refl

  factor :
      (c i : Bool) (f m : String → Bool) (ips : List String)
      → any (λ ip. f ip && (c && (i && m ip))) ips ≡ (c && (i && any (λ ip. f ip && m ip) ips))
  factor true true f m ips = refl
  factor true false f m ips = any-false f ips
  factor false i f m ips = any-false f ips

  -- A rule lets through on the wire what it allows.
  expand_lem :
      (base : SecurityRule) (o : Option ℕ)
      → any let_through (expand base (group_addresses rows o) o) ≡ (
          covers (proto_of base.protocol base.ipv6) p.kind
          && (in_ports (sec_rule base) p && remote_allowed base o))
  unfolding permits
  expand_lem base none = or_false _
  expand_lem base (some g) =
      any-map let_through (for_member base) (keep (of_family base.ipv6) (addresses rows g))
      ∙ any-keep (λ ip. let_through (for_member base ip)) (of_family base.ipv6) (addresses rows g)
      ∙ any_ext _ _ (addresses rows g)
          (λ ip m. ap (λ b. of_family base.ipv6 ip && b) (member_lem base ip))
      ∙ factor (covers (proto_of base.protocol base.ipv6) p.kind) (in_ports (sec_rule base) p)
          (of_family base.ipv6)
          (λ ip. switch.in_cidr (remote_of switch laws dir p) (trim (host_cidr base.ipv6 ip)))
          (addresses rows g)

  pub expanded_lem :
      (members : GroupMembers) (r : SecurityGroupRule)
      → group_addresses members r.remote_group_id ≡ group_addresses rows r.remote_group_id
      → any let_through (expand_rule members r) ≡ allows r
  unfolding expand_rule allows
  expanded_lem members r same = rw same (expand_lem (base_rule r) r.remote_group_id)

  pub all_lem :
      (members : GroupMembers) (rs : List SecurityGroupRule)
      → ((r : SecurityGroupRule)
          → Memᴰ r rs
          → group_addresses members r.remote_group_id ≡ group_addresses rows r.remote_group_id)
      → any let_through (expand_all members rs) ≡ any allows rs
  all_lem members [] same = refl
  all_lem members (r ∷ rs) same =
      any_append let_through (expand_rule members r) (expand_all members rs)
      ∙ ap₂ ◌||◌ (expanded_lem members r (same r (Memᴰ.head refl)))
          (all_lem members rs λ y m. same y (Memᴰ.tail m))
