-- ===== src/Firewall/Spoof.antt =====
-- What table 0 does with frames under a MAC that is not the sender's.
use vquasar.Base.{All-append, any-All, Memᴰ-append_left, Memᴰ-append_right}
use vquasar.Base.Text.{not_same}
use vquasar.Firewall.Decisions.{
  ingress_flows, Uniform, before_last, deny_egress, Memᴰ-last, before_ingress, before_egress,
}
use vquasar.Base.{
  refl, true, false, [], ◌∷◌, String, List, All, ◌<◌, ◌≡◌, ◌++◌, ◌≢◌, ◌⊎◌, All-mono, Bool-cases,
  arith, eq_iff, inl, ℕ, inr, Memᴰ, Bool, any,
}
use vquasar.Firewall.Switch.{matches, field_holds, Beaten, Switch, SwitchLaws, Packet}
use vquasar.Firewall.Tables.{rule_flows-uniform, hits}
use vquasar.Firewall.{
  drop, arp, ip, ipv6, keyword, dl_dst, dl_src, in_port, from_nic, to_nic, normal, Policy, Flow,
  Field, build_flows, build_port_security_flows, egress_flows, rule_flows, from_guest, flow, fresh,
  result_table, zone_for, commit_normal, spoof_drop_priority, table_0_flows, Dir, last_flows,
  SecRule, stateful_flows, Keyword, arp_sha,
}

-- A flow that another NIC, or the bridge, has and that leaves a packet to the drop of table 0.
abbrev pub IsLower : Switch → Packet → Flow → Type 0
IsLower switch p g =
    (matches switch p g.fields ≡ false) ⊎ ((g.table ≢ 0) ⊎ (g.priority < spoof_drop_priority))

module _ (switch : Switch) (laws : SwitchLaws switch) (p : Packet) where
  abbrev allow_egress : String → String → Keyword → Flow
  allow_egress tap mac k =
      flow tap result_table 90 (fresh tap ++ from_guest tap mac ++ keyword k ∷ [])
        (commit_normal (zone_for tap))

  Beaten-result :
      (f : Flow) (gs : List Flow)
      → All (λ g. g.table ≡ result_table) gs
      → All (Beaten switch 0 p f) gs
  Beaten-result f gs h = All-mono gs (λ g e t m. absurd (omega arith)) h

  rules_lem :
      (f : Flow) (tap : String) (priority : ℕ) (ends : List Field) (dir : Dir) (rs : List SecRule)
      → All (Beaten switch 0 p f) (rule_flows tap priority ends dir rs)
  rules_lem f tap priority ends dir rs =
      All-mono (rule_flows tap priority ends dir rs) beaten
        (rule_flows-uniform switch laws tap p priority ends dir rs)
    where
      beaten : (g : Flow) → Uniform tap priority g → Beaten switch 0 p f g
      beaten g (t, _, _) zero _ = absurd (omega arith)

  egress_lem :
      (f : Flow) (tap mac : String) (policy : Policy)
      → All (Beaten switch 0 p f) (egress_flows tap mac policy)
  unfolding egress_flows
  egress_lem f tap mac policy = elim (Bool-cases policy.egress_default_deny) [
    | inr open_egress ↦ rw open_egress (
        Beaten-result f (allow_egress tap mac ip ∷ allow_egress tap mac ipv6 ∷ [])
          (refl, (refl, tt)))
    | inl deny ↦ rw deny (
        All-append (Beaten switch 0 p f)
          (rule_flows tap 90 (from_guest tap mac) from_nic policy.egress) (deny_egress tap mac ∷ [])
          (rules_lem f tap 90 (from_guest tap mac) from_nic policy.egress)
          (Beaten-result f (deny_egress tap mac ∷ []) (refl, tt)))
  ]

  -- In table 0 a flow has to beat those of table 0 only.
  pub Beaten-own :
      (f : Flow) (tap mac : String) (policy : Policy)
      → All (Beaten switch 0 p f) (table_0_flows tap mac)
      → All (Beaten switch 0 p f) (last_flows tap mac)
      → All (Beaten switch 0 p f) (build_flows tap mac policy)
  unfolding build_flows
  Beaten-own f tap mac policy first last =
      All-append (Beaten switch 0 p f) (before_last tap mac policy) (last_flows tap mac)
        (All-append (Beaten switch 0 p f) (before_ingress tap mac policy)
          (ingress_flows tap mac policy)
          (All-append (Beaten switch 0 p f) (before_egress tap mac policy)
            (egress_flows tap mac policy)
            (All-append (Beaten switch 0 p f) (table_0_flows tap mac) (stateful_flows tap) first
              (Beaten-result f (stateful_flows tap) (refl, (refl, (refl, tt)))))
            (egress_lem f tap mac policy))
          (rules_lem f tap 80 (dl_dst mac ∷ []) to_nic policy.ingress))
        last

  abbrev pub spoof_drop : String → Flow
  spoof_drop tap = flow tap 0 spoof_drop_priority (in_port tap ∷ []) drop

  module _ (tap mac : String) (here : p.port ≡ tap) (spoofed : p.src_mac ≢ mac) where
    from_tap : matches switch p (in_port tap ∷ []) ≡ true
    unfolding field_holds
    from_tap = let d = (eq_iff p.port tap).1 here in ground arith

    table_0_miss : p.dst_mac ≢ mac → any (hits switch laws tap p) (table_0_flows tap mac) ≡ false
    unfolding field_holds
    table_0_miss other =
        rw
          ((eq_iff p.port tap).1 here, not_same p.src_mac mac spoofed, not_same p.dst_mac mac other)
          refl

    security_miss : (ms : List Field) → matches switch p (in_port tap ∷ dl_src mac ∷ ms) ≡ false
    unfolding field_holds
    security_miss ms = rw ((eq_iff p.port tap).1 here, not_same p.src_mac mac spoofed) refl

    no_match : {b : Bool} → b ≡ false → b ≡ true → ⊥
    no_match x y = cc

    miss : (g : Flow) → matches switch p g.fields ≡ false → Beaten switch 0 p (spoof_drop tap) g
    miss g e t m = absurd (no_match e m)

    Beaten-others :
        (others : List Flow)
        → All (IsLower switch p) others
        → All (Beaten switch 0 p (spoof_drop tap)) others
    Beaten-others others h = All-mono others low h
      where
        low : (g : Flow) → IsLower switch p g → Beaten switch 0 p (spoof_drop tap) g
        low g (inl e) = miss g e
        low g (inr (inl away)) = λ t m. absurd (away t)
        low g (inr (inr under)) = λ t m. inl under

    own_lem :
        p.dst_mac ≢ mac
        → (policy : Policy) → All (Beaten switch 0 p (spoof_drop tap)) (build_flows tap mac policy)
    own_lem other policy =
        Beaten-own (spoof_drop tap) tap mac policy
          (All-mono (table_0_flows tap mac) miss
            (any-All (hits switch laws tap p) (table_0_flows tap mac) (table_0_miss other)))
          ((λ t m. absurd (omega arith)), ((λ t m. inr refl), tt))

    -- A switch that keeps SwitchLaws drops in table 0 a frame that a NIC sends under a MAC that is
    -- not its own and not to its own MAC, both under a policy and under port security alone, unless
    -- a flow of table 0 with priority 1000 or more that is not the NIC's matches it.
    pub spoofed_dropped :
        p.dst_mac ≢ mac
        → (policy : Policy) (others : List Flow) → All (IsLower switch p) others
        → (switch.decide 0 (build_flows tap mac policy ++ others) p ≡ drop)
          × (switch.decide 0 (build_port_security_flows tap mac ++ others) p ≡ drop)
    unfolding build_port_security_flows
    spoofed_dropped other policy others lower = (
      laws.highest 0 (build_flows tap mac policy ++ others) p (spoof_drop tap)
          (Memᴰ-append_left (spoof_drop tap) (build_flows tap mac policy) others
            (Memᴰ-last tap mac policy (spoof_drop tap) (Memᴰ.tail (Memᴰ.head refl))))
          refl from_tap
          (All-append (Beaten switch 0 p (spoof_drop tap)) (build_flows tap mac policy) others
            (own_lem other policy) (Beaten-others others lower)),
      laws.highest 0 (build_port_security_flows tap mac ++ others) p (spoof_drop tap)
          (Memᴰ.tail (Memᴰ.tail (Memᴰ.head refl))) refl from_tap
          (
            (λ t m. absurd (no_match (security_miss (keyword arp ∷ arp_sha mac ∷ [])) m)),
            (
              (λ t m. absurd (no_match (security_miss []) m)),
              ((λ t m. inr refl), Beaten-others others lower),
            ),
          ),
    )

  abbrev arp_in : String → String → Flow
  arp_in tap mac = flow tap 0 1100 (dl_dst mac ∷ keyword arp ∷ []) normal

  arp_mem :
      (tap mac : String) (policy : Policy) → Memᴰ (arp_in tap mac) (build_flows tap mac policy)
  unfolding build_flows
  arp_mem tap mac policy = Memᴰ.tail (Memᴰ.tail (Memᴰ.tail (Memᴰ.tail (Memᴰ.head refl))))

  arp_hit :
      (mac : String)
      → p.dst_mac ≡ mac
      → p.kind ≡ arp
      → matches switch p (dl_dst mac ∷ keyword arp ∷ []) ≡ true
  unfolding field_holds
  arp_hit mac there kind = rw ((eq_iff p.dst_mac mac).1 there, kind) refl

  arp_lem :
      (tap mac tap' mac' : String) (policy : Policy)
      → All (Beaten switch 0 p (arp_in tap' mac')) (build_flows tap mac policy)
  arp_lem tap mac tap' mac' policy =
      Beaten-own (arp_in tap' mac') tap mac policy
        (
          (λ t m. inr refl),
          (
            (λ t m. inl (omega arith)),
            (
              (λ t m. inl (omega arith)),
              (
                (λ t m. inl (omega arith)),
                (
                  (λ t m. inr refl),
                  (
                    (λ t m. inl (omega arith)),
                    (
                      (λ t m. inl (omega arith)),
                      (
                        (λ t m. inl (omega arith)),
                        ((λ t m. inl (omega arith)), ((λ t m. inl (omega arith)), tt)),
                      ),
                    ),
                  ),
                ),
              ),
            ),
          ),
        )
        ((λ t m. inl (omega arith)), ((λ t m. inl (omega arith)), tt))

  -- A switch that keeps SwitchLaws delivers an ARP frame for a NIC with a policy that shares the
  -- bridge with another NIC with a policy and no other flows, whichever port sends it under
  -- whichever MAC.
  pub arp_passes :
      (tap mac tap' mac' : String) (policy policy' : Policy)
      → p.dst_mac ≡ mac'
      → p.kind ≡ arp
      → switch.decide 0 (build_flows tap mac policy ++ build_flows tap' mac' policy') p ≡ normal
  arp_passes tap mac tap' mac' policy policy' there kind =
      laws.highest 0 (build_flows tap mac policy ++ build_flows tap' mac' policy') p
        (arp_in tap' mac')
        (Memᴰ-append_right (arp_in tap' mac') (build_flows tap mac policy)
          (build_flows tap' mac' policy') (arp_mem tap' mac' policy'))
        refl (arp_hit mac' there kind)
        (All-append (Beaten switch 0 p (arp_in tap' mac')) (build_flows tap mac policy)
          (build_flows tap' mac' policy') (arp_lem tap mac tap' mac' policy)
          (arp_lem tap' mac' tap' mac' policy'))
