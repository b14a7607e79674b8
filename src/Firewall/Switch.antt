-- ===== src/Firewall/Switch.antt =====
-- Open vSwitch as the flows use it: what each field asks of a packet, and which flow of a table applies.
-- The test of an address against a CIDR, the test of a masked port, and the choice of a flow are
-- parameters; `SwitchLaws` is what ovs-fields(7) and ovs-ofctl(8) document of the last two.
use vquasar.Base.{true, false}
use vquasar.Firewall.{
  arp, ip, ipv6, icmp, icmp6, tcp, tcp6, udp, udp6, est, rel, inv, new, in_port, dl_src, dl_dst,
  arp_sha, nw_src, nw_dst, ipv6_src, ipv6_dst, keyword, tp_src, tp_dst, tp_dst_mask, ct_zone,
  ct_state,
}
use vquasar.Firewall.{
  CtFlag, Field, Keyword, Flow, Action, est, in_port, rel, dl_src, inv, dl_dst, arp_sha, nw_src,
  nw_dst, ipv6_src, ipv6_dst, keyword, tp_src, tp_dst, tp_dst_mask, ct_zone, ct_state,
}
use vquasar.Base.{List, String, ℕ, Bool, ◌≡◌, all, true, ◌==◌, Memᴰ, str_eq, ◌<◌, All, ◌⊎◌}
use vquasar.Firewall.Ports.Cover.{MaskLaw}

-- A packet in a table: the keyword is the most specific one for it, and the states are those that
-- conntrack gave it in the zone.
pub record Packet : Type 0 where
  pub port : String
  pub src_mac : String
  pub dst_mac : String
  pub sender_mac : String
  pub kind : Keyword
  pub src_addr : String
  pub dst_addr : String
  pub src_port : ℕ
  pub dst_port : ℕ
  pub zone : ℕ
  pub is_est : Bool
  pub is_rel : Bool
  pub is_inv : Bool
  pub is_new : Bool

pub record Switch : Type 0 where
  pub in_cidr : String → String → Bool
  pub masked : ℕ → ℕ → ℕ → Bool
  -- The actions for a packet in a table of the bridge.
  pub decide : ℕ → List Flow → Packet → Action

-- `ip` stands for each IPv4 packet, `ipv6` for each IPv6 packet, the others for themselves.
abbrev pub covers : Keyword → Keyword → Bool
covers arp arp = true
covers icmp icmp = true
covers icmp6 icmp6 = true
covers tcp tcp = true
covers tcp6 tcp6 = true
covers udp udp = true
covers udp6 udp6 = true
covers ip ip = true
covers ip icmp = true
covers ip tcp = true
covers ip udp = true
covers ipv6 ipv6 = true
covers ipv6 icmp6 = true
covers ipv6 tcp6 = true
covers ipv6 udp6 = true
covers _ _ = false

abbrev has_flag : CtFlag → Packet → Bool
has_flag est p = p.is_est
has_flag rel p = p.is_rel
has_flag inv p = p.is_inv
has_flag new p = p.is_new

module _ (switch : Switch) where
  unfoldable pub field_holds : Packet → Field → Bool
  field_holds p (in_port s) = str_eq p.port s
  field_holds p (dl_src s) = str_eq p.src_mac s
  field_holds p (dl_dst s) = str_eq p.dst_mac s
  field_holds p (arp_sha s) = str_eq p.sender_mac s
  field_holds p (nw_src c) = switch.in_cidr p.src_addr c
  field_holds p (nw_dst c) = switch.in_cidr p.dst_addr c
  field_holds p (ipv6_src c) = switch.in_cidr p.src_addr c
  field_holds p (ipv6_dst c) = switch.in_cidr p.dst_addr c
  field_holds p (keyword k) = covers k p.kind
  field_holds p (tp_src n) = p.src_port == n
  field_holds p (tp_dst n) = p.dst_port == n
  field_holds p (tp_dst_mask v m) = switch.masked p.dst_port v m
  field_holds p (ct_zone z) = p.zone == z
  field_holds p (ct_state f) = has_flag f p

  abbrev pub matches : Packet → List Field → Bool
  matches p fields = all (field_holds p) fields

  -- A matching flow of the table applies, if each other one that matches has a lower priority or the
  -- same actions.
  abbrev pub Beaten : ℕ → Packet → Flow → Flow → Type 0
  Beaten t p f g =
      g.table ≡ t → matches p g.fields ≡ true → (g.priority < f.priority) ⊎ (g.action ≡ f.action)

  pub record SwitchLaws : Type 0 where
    pub masks : MaskLaw switch.masked
    pub highest :
        (t : ℕ) (flows : List Flow) (p : Packet) (f : Flow)
        → Memᴰ f flows
        → f.table ≡ t
        → matches p f.fields ≡ true
        → All (Beaten t p f) flows
        → switch.decide t flows p ≡ f.action
