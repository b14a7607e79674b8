-- ===== src/Firewall/Ingress.antt =====
-- What the flows do with a new connection to the NIC.
use vquasar.Base.{any-Memᴰ, any_append}
use vquasar.Base.Text.{not_same}
use vquasar.Firewall.Decisions.{
  IsNew, IsOther, FitsPorts, ingress_flows, decide_lem, Memᴰ-ingress, Memᴰ-last, Beaten-misses,
  Beaten-rules, Beaten-last, Uniform, fresh_lem,
}
use vquasar.Base.{
  refl, true, false, [], ◌∷◌, String, List, All, ◌≡◌, ◌++◌, ◌≢◌, any, arith, eq_iff, if◌then◌else◌,
  Bool-cases, inl, inr, ◌∙◌, All-Memᴰ, Memᴰ, sym,
}
use vquasar.Firewall.Switch.{matches, field_holds, Switch, SwitchLaws, Packet}
use vquasar.Firewall.Rules.{permits}
use vquasar.Firewall.Tables.{hits, rule_flows_lem, rule_flows-uniform}
use vquasar.Firewall.{
  drop, dl_dst, Policy, Flow, egress_flows, flow, fresh, from_guest, rule_flows, result_table,
  zone_for, build_flows, to_nic, commit_normal, Field, keyword, ip, ipv6, from_nic,
}

module _ (switch : Switch) (laws : SwitchLaws switch) (tap mac : String) (policy : Policy)
    (others : List Flow) (p : Packet) (is_new : IsNew tap p)
    (rest : All (IsOther switch p) others) where
  abbrev deny_ingress : Flow
  deny_ingress = flow tap result_table 10 (fresh tap ++ dl_dst mac ∷ []) drop

  to_nic_lem : p.dst_mac ≡ mac → matches switch p (fresh tap ++ dl_dst mac ∷ []) ≡ true
  unfolding field_holds
  to_nic_lem e =
      let d = (eq_iff p.dst_mac mac).1 e in
      let f = fresh_lem switch laws tap mac policy others p is_new rest in ground arith

  guest_miss :
      p.port ≢ tap
      → (ms : List Field) → matches switch p (fresh tap ++ from_guest tap mac ++ ms) ≡ false
  unfolding field_holds
  guest_miss other ms = let d = not_same p.port tap other in ground (arith, d)

  egress_miss :
      p.port ≢ tap
      → FitsPorts policy.egress
      → any (hits switch laws tap p) (egress_flows tap mac policy) ≡ false
  unfolding egress_flows
  egress_miss other fits = elim (Bool-cases policy.egress_default_deny) [
    | inr open_egress ↦
        rw (open_egress, guest_miss other (keyword ip ∷ []), guest_miss other (keyword ipv6 ∷ []))
          refl
    | inl deny ↦
        rw
          (
            deny,
            any_append (hits switch laws tap p)
                (rule_flows tap 90 (from_guest tap mac) from_nic policy.egress)
                (flow tap result_table 20 (fresh tap ++ from_guest tap mac) drop ∷ []),
            rule_flows_lem switch laws tap p 90 (from_guest tap mac) from_nic policy.egress fits,
            guest_miss other [],
          )
          refl
  ]

  abbrev own : List Flow
  own = build_flows tap mac policy

  hits_lem :
      p.dst_mac ≡ mac
      → FitsPorts policy.ingress
      → any (hits switch laws tap p) (ingress_flows tap mac policy)
        ≡ any (λ r. permits switch laws to_nic r p) policy.ingress
  hits_lem here fits =
      rw (to_nic_lem here) at
        (rule_flows_lem switch laws tap p 80 (dl_dst mac ∷ []) to_nic policy.ingress fits)

  permitted_lem :
      p.dst_mac ≡ mac
      → p.port ≢ tap
      → FitsPorts policy.ingress
      → FitsPorts policy.egress
      → any (λ r. permits switch laws to_nic r p) policy.ingress ≡ true
      → switch.decide result_table (own ++ others) p ≡ commit_normal (zone_for tap)
  permitted_lem here other fits fits' permitted =
      let (f, m, hit) =
        any-Memᴰ (hits switch laws tap p) (ingress_flows tap mac policy)
          (hits_lem here fits ∙ permitted) in
      let (t, n, a) =
        All-Memᴰ (Uniform tap 80) f (ingress_flows tap mac policy) m
          (rule_flows-uniform switch laws tap p 80 (dl_dst mac ∷ []) to_nic policy.ingress) in
      decide_lem switch laws tap mac policy others p is_new rest f (Memᴰ-ingress tap mac policy f m)
        t (omega arith) hit
        (Beaten-misses switch laws tap mac policy others p is_new rest f
          (egress_flows tap mac policy) (egress_miss other fits'))
        (Beaten-rules switch laws tap mac policy others p is_new rest f 80 (dl_dst mac ∷ []) to_nic
          policy.ingress (inr (sym a)))
        (Beaten-last switch laws tap mac policy others p is_new rest f (inl (omega arith)))
      ∙ a

  -- A new connection to the NIC is let through exactly if a rule of its ingress list permits it, and
  -- else dropped.
  pub new_ingress :
      p.dst_mac ≡ mac
      → p.port ≢ tap
      → FitsPorts policy.ingress
      → FitsPorts policy.egress
      → switch.decide result_table (own ++ others) p ≡ (
          if any (λ r. permits switch laws to_nic r p) policy.ingress
          then commit_normal (zone_for tap)
          else drop)
  new_ingress here other fits fits' =
      elim (Bool-cases (any (λ r. permits switch laws to_nic r p) policy.ingress)) [
        | inl permitted ↦ rw permitted (permitted_lem here other fits fits' permitted)
        | inr refused ↦ rw refused (
            decide_lem switch laws tap mac policy others p is_new rest (deny_ingress)
              (Memᴰ-last tap mac policy deny_ingress (Memᴰ.head refl)) refl (omega arith)
              (to_nic_lem here)
              (Beaten-misses switch laws tap mac policy others p is_new rest deny_ingress
                (egress_flows tap mac policy) (egress_miss other fits'))
              (Beaten-misses switch laws tap mac policy others p is_new rest deny_ingress
                (ingress_flows tap mac policy) (hits_lem here fits ∙ refused))
              (Beaten-last switch laws tap mac policy others p is_new rest deny_ingress (inr refl)))
      ]
