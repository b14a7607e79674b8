-- ===== src/Firewall/Entry.antt =====
-- What table 0 does with the IP packets of a NIC, and the way of the first packet of a connection through
-- both tables.
use vquasar.Firewall.Spoof.{Beaten-own}
use vquasar.Firewall.Decisions.{IsOther, Memᴰ-table_0}
use vquasar.Firewall.{
  udp6, Flow, ip, Action, Policy, conntrack, ipv6, Field, build_flows, icmp6, Keyword, udp, flow,
  table_0_flows, keyword, arp, icmp, result_table, tcp, zone_for, tcp6, dl_dst, from_guest, dl_src,
  in_port,
}
use vquasar.Firewall.Switch.{Packet, Switch, SwitchLaws, covers, Beaten, matches, field_holds}
use vquasar.Base.{
  ℕ, List, true, String, false, ◌||◌, All, ◌≡◌, Bool, ◌&&◌, Memᴰ, ◌==◌, ◌++◌, ◌∷◌, [], refl, ◌<◌,
  inl, inr, arith, All-mono, Memᴰ-append_left, eq_iff, All-append,
}

-- An IP packet that is neither ICMPv6 nor DHCP.
pub record IsTracked (p : Packet) : Type 0 where
  pub ip_packet : (covers ip p.kind || covers ipv6 p.kind) ≡ true
  pub not_icmp6 : covers icmp6 p.kind ≡ false
  pub not_request : (covers udp p.kind && ((p.src_port == 68) && (p.dst_port == 67))) ≡ false
  pub not_reply : (covers udp p.kind && ((p.src_port == 67) && (p.dst_port == 68))) ≡ false

-- The packet as conntrack returns it, if it takes it for the first of a connection.
abbrev pub as_new : ℕ → Packet → Packet
as_new z p = record p { zone = z; is_new = true; is_est = false; is_rel = false; is_inv = false }

abbrev pub resume : Switch → List Flow → Packet → Action → Action
resume switch flows p (conntrack table z) = switch.decide table flows (as_new z p)
resume switch flows p a = a

-- What the bridge does with the first packet of a connection, from table 0 on.
abbrev pub fate : Switch → List Flow → Packet → Action
fate switch flows p = resume switch flows p (switch.decide 0 flows p)

module _ (switch : Switch) (laws : SwitchLaws switch) (tap mac : String) (policy : Policy)
    (others : List Flow) (p : Packet) (rest : All (IsOther switch p) others)
    (tracked : IsTracked p) where
  abbrev entry : List Field → Keyword → Flow
  entry dir k = flow tap 0 1080 (dir ++ keyword k ∷ []) (conntrack result_table (zone_for tap))

  no_match : {b : Bool} → b ≡ false → b ≡ true → ⊥
  no_match x y = cc

  arp_lem : (k : Keyword) → (covers ip k || covers ipv6 k) ≡ true → covers arp k ≡ false
  arp_lem arp e = cc
  arp_lem ip e = refl
  arp_lem ipv6 e = refl
  arp_lem icmp e = refl
  arp_lem icmp6 e = refl
  arp_lem tcp e = refl
  arp_lem tcp6 e = refl
  arp_lem udp e = refl
  arp_lem udp6 e = refl

  to_nic_miss : (a b c : Bool) → b ≡ false → (a && (b && c)) ≡ true → ⊥
  to_nic_miss true true c e h = cc
  to_nic_miss true false c e h = cc
  to_nic_miss false b c e h = cc

  guest_miss : (a b c d : Bool) → c ≡ false → (a && (b && (c && d))) ≡ true → ⊥
  guest_miss true b c d e h = to_nic_miss b c d e h
  guest_miss false b c d e h = cc

  dhcp_lem : (u s d : Bool) → (u && (s && (d && true))) ≡ true → (u && (s && d)) ≡ true
  dhcp_lem true true true h = refl
  dhcp_lem true true false h = cc
  dhcp_lem true false d h = cc
  dhcp_lem false s d h = cc

  after_lem : (a b : Bool) → (a && b) ≡ true → b ≡ true
  after_lem true b h = h
  after_lem false b h = absurd cc

  first_lem :
      (dir : List Field) (k : Keyword)
      → All (Beaten switch 0 p (entry dir k)) (table_0_flows tap mac)
  unfolding field_holds
  first_lem dir k = (
    (λ t m. absurd (guest_miss _ _ _ _ (arp_lem p.kind tracked.ip_packet) m)),
    (
      (λ t m. absurd (guest_miss _ _ _ _ tracked.not_icmp6 m)),
      (
        (λ t m. inr refl),
        (
          (λ t m. inr refl),
          (
            (λ t m. absurd (to_nic_miss _ _ _ (arp_lem p.kind tracked.ip_packet) m)),
            (
              (λ t m. absurd (to_nic_miss _ _ _ tracked.not_icmp6 m)),
              (
                (λ t m. inr refl),
                (
                  (λ t m. inr refl),
                  (
                    (λ t m. absurd (
                        no_match tracked.not_request (
                          dhcp_lem (covers udp p.kind) (p.src_port == 68) (p.dst_port == 67) (
                            after_lem (field_holds switch p (dl_src mac)) _
                              (after_lem (field_holds switch p (in_port tap)) _ m))))),
                    (
                      (λ t m. absurd (
                          no_match tracked.not_reply (
                            dhcp_lem (covers udp p.kind) (p.src_port == 67) (p.dst_port == 68)
                              (after_lem (field_holds switch p (dl_dst mac)) _ m)))),
                      tt,
                    ),
                  ),
                ),
              ),
            ),
          ),
        ),
      ),
    ),
  )

  Beaten-others : (f : Flow) → 0 < f.priority → All (Beaten switch 0 p f) others
  Beaten-others f up = All-mono others low rest
    where
      low : (g : Flow) → IsOther switch p g → Beaten switch 0 p f g
      low g (inl miss) = λ t m. absurd (apart miss m)
        where
          apart : {b : Bool} → b ≡ false → b ≡ true → ⊥
          apart x y = cc
      low g (inr zero) = λ t m. inl (omega (arith, zero, up))

  entry_lem :
      (dir : List Field) (k : Keyword)
      → Memᴰ (entry dir k) (table_0_flows tap mac)
      → matches switch p (dir ++ keyword k ∷ []) ≡ true
      → switch.decide 0 (build_flows tap mac policy ++ others) p
        ≡ conntrack result_table (zone_for tap)
  entry_lem dir k mem hit =
      laws.highest 0 (build_flows tap mac policy ++ others) p (entry dir k)
        (Memᴰ-append_left (entry dir k) (build_flows tap mac policy) others
          (Memᴰ-table_0 tap mac policy (entry dir k) mem))
        refl hit
        (All-append (Beaten switch 0 p (entry dir k)) (build_flows tap mac policy) others
          (Beaten-own switch laws p (entry dir k) tap mac policy (first_lem dir k)
            ((λ t m. absurd (omega arith)), ((λ t m. inl (omega arith)), tt)))
          (Beaten-others (entry dir k) (omega arith)))

  either_lem :
      (a b : Bool) (goal : Type 0) → (a ≡ true → goal) → (b ≡ true → goal) → (a || b) ≡ true → goal
  either_lem true b goal f g e = f refl
  either_lem false b goal f g e = g e

  -- A packet to the NIC goes to conntrack.
  pub to_nic_tracked :
      p.dst_mac ≡ mac
      → switch.decide 0 (build_flows tap mac policy ++ others) p
        ≡ conntrack result_table (zone_for tap)
  unfolding field_holds
  to_nic_tracked here =
      let d = (eq_iff p.dst_mac mac).1 here in
      either_lem (covers ip p.kind) (covers ipv6 p.kind) _
        (λ e.
          entry_lem (dl_dst mac ∷ []) ip
            (Memᴰ.tail (Memᴰ.tail (Memᴰ.tail (Memᴰ.tail (Memᴰ.tail (Memᴰ.tail (Memᴰ.head refl)))))))
            (rw (d, e) refl))
        (λ e.
          entry_lem (dl_dst mac ∷ []) ipv6
            (Memᴰ.tail (
              Memᴰ.tail
                (Memᴰ.tail (Memᴰ.tail (Memᴰ.tail (Memᴰ.tail (Memᴰ.tail (Memᴰ.head refl))))))))
            (rw (d, e) refl))
        tracked.ip_packet

  -- A packet that the NIC sends under its own MAC goes to conntrack.
  pub from_nic_tracked :
      p.port ≡ tap
      → p.src_mac ≡ mac
      → switch.decide 0 (build_flows tap mac policy ++ others) p
        ≡ conntrack result_table (zone_for tap)
  unfolding field_holds
  from_nic_tracked from own =
      let i = (eq_iff p.port tap).1 from in
      let d = (eq_iff p.src_mac mac).1 own in
      either_lem (covers ip p.kind) (covers ipv6 p.kind) _
        (λ e.
          entry_lem (from_guest tap mac) ip (Memᴰ.tail (Memᴰ.tail (Memᴰ.head refl)))
            (rw (i, d, e) refl))
        (λ e.
          entry_lem (from_guest tap mac) ipv6 (Memᴰ.tail (Memᴰ.tail (Memᴰ.tail (Memᴰ.head refl))))
            (rw (i, d, e) refl))
        tracked.ip_packet
