-- ===== src/Firewall/Egress.antt =====
-- What the flows do with a new connection from the NIC.
use vquasar.Base.{All-append, any-Memᴰ, Memᴰ-append_left, Memᴰ-append_right}
use vquasar.Base.Text.{not_same}
use vquasar.Firewall.Decisions.{
  IsNew, IsOther, FitsPorts, Uniform, decide_lem, fresh_lem, ingress_flows, Memᴰ-egress,
  Beaten-misses, Beaten-rules, Beaten-last, deny_egress,
}
use vquasar.Base.{
  refl, true, false, [], ◌∷◌, String, List, All, ◌<◌, ◌≡◌, ◌++◌, ◌≢◌, ◌||◌, not, Bool-cases, Memᴰ,
  any, arith, if◌then◌else◌, eq_iff, inl, inr, ◌∙◌, All-Memᴰ, sym, Bool,
}
use vquasar.Firewall.Switch.{matches, field_holds, Beaten, Switch, SwitchLaws, Packet, covers}
use vquasar.Firewall.Rules.{permits}
use vquasar.Firewall.Tables.{hits, rule_flows_lem, rule_flows-uniform}
use vquasar.Firewall.{
  drop, ip, ipv6, keyword, dl_dst, from_nic, Policy, Flow, build_flows, egress_flows, rule_flows,
  from_guest, flow, fresh, result_table, zone_for, commit_normal, Keyword, to_nic, Action,
}

verdict :
    (d x : Bool) (got a b : Action)
    → (d ≡ false → got ≡ a)
    → (d ≡ true → x ≡ true → got ≡ a)
    → (d ≡ true → x ≡ false → got ≡ b)
    → got ≡ (if not d || x then a else b)
verdict false x got a b f g h = f refl
verdict true true got a b f g h = g refl refl
verdict true false got a b f g h = h refl refl

module _ (switch : Switch) (laws : SwitchLaws switch) (tap mac : String) (policy : Policy)
    (others : List Flow) (p : Packet) (is_new : IsNew tap p)
    (rest : All (IsOther switch p) others) where
  abbrev own : List Flow
  own = build_flows tap mac policy

  abbrev allowed : List Flow
  allowed = rule_flows tap 90 (from_guest tap mac) from_nic policy.egress

  abbrev commit_any : Keyword → Flow
  commit_any k =
      flow tap result_table 90 (fresh tap ++ from_guest tap mac ++ keyword k ∷ [])
        (commit_normal (zone_for tap))

  guest_lem :
      p.port ≡ tap
      → p.src_mac ≡ mac
      → (k : Keyword)
      → (matches switch p (fresh tap ++ from_guest tap mac) ≡ true)
        × (matches switch p (fresh tap ++ from_guest tap mac ++ keyword k ∷ []) ≡ covers k p.kind)
  unfolding field_holds
  guest_lem e e' k =
      let d = (eq_iff p.port tap).1 e in
      let d' = (eq_iff p.src_mac mac).1 e' in
      let f = fresh_lem switch laws tap mac policy others p is_new rest in
      (ground arith, ground arith)

  to_other_miss : p.dst_mac ≢ mac → matches switch p (fresh tap ++ dl_dst mac ∷ []) ≡ false
  unfolding field_holds
  to_other_miss other = let d = not_same p.dst_mac mac other in ground (arith, d)

  to_other_lem :
      p.dst_mac ≢ mac
      → FitsPorts policy.ingress
      → any (hits switch laws tap p) (ingress_flows tap mac policy) ≡ false
  to_other_lem other fits =
      let found =
        rule_flows_lem switch laws tap p 80 (dl_dst mac ∷ []) to_nic policy.ingress fits in
      rw (to_other_miss other) at found

  hits_lem :
      p.port ≡ tap
      → p.src_mac ≡ mac
      → FitsPorts policy.egress
      → any (hits switch laws tap p) allowed
        ≡ any (λ r. permits switch laws from_nic r p) policy.egress
  hits_lem e e' fits =
      rw ((guest_lem e e' ip).0) at
        (rule_flows_lem switch laws tap p 90 (from_guest tap mac) from_nic policy.egress fits)

  -- Which of the NIC's flows applies to what it sends, by its default.
  decide_egress :
      (f : Flow)
      → Memᴰ f (egress_flows tap mac policy)
      → f.table ≡ result_table
      → 10 < f.priority
      → matches switch p f.fields ≡ true
      → All (Beaten switch result_table p f) (egress_flows tap mac policy)
      → p.dst_mac ≢ mac
      → FitsPorts policy.ingress
      → switch.decide result_table (own ++ others) p ≡ f.action
  decide_egress f m t up hit beaten other fits =
      decide_lem switch laws tap mac policy others p is_new rest f (Memᴰ-egress tap mac policy f m)
        t (omega arith) hit beaten
        (Beaten-misses switch laws tap mac policy others p is_new rest f
          (ingress_flows tap mac policy) (to_other_lem other fits))
        (Beaten-last switch laws tap mac policy others p is_new rest f (inl up))

  open_egress :
      p.port ≡ tap
      → p.src_mac ≡ mac
      → p.dst_mac ≢ mac
      → FitsPorts policy.ingress
      → policy.egress_default_deny ≡ false
      → (covers ip p.kind || covers ipv6 p.kind) ≡ true
      → switch.decide result_table (own ++ others) p ≡ commit_normal (zone_for tap)
  unfolding egress_flows
  open_egress e e' other fits default kind = elim (Bool-cases (covers ip p.kind)) [
    | inl v4 ↦
        decide_egress (commit_any ip) (rw default (Memᴰ.head refl)) refl (omega arith)
          ((guest_lem e e' ip).1 ∙ v4) (rw default ((λ t m. inr refl), ((λ t m. inr refl), tt)))
          other fits
    | inr not_v4 ↦
        decide_egress (commit_any ipv6) (rw default (Memᴰ.tail (Memᴰ.head refl))) refl (omega arith)
          ((guest_lem e e' ipv6).1 ∙ rw not_v4 at kind)
          (rw default ((λ t m. inr refl), ((λ t m. inr refl), tt))) other fits
  ]

  deny_lem :
      p.port ≡ tap
      → p.src_mac ≡ mac
      → p.dst_mac ≢ mac
      → FitsPorts policy.ingress
      → FitsPorts policy.egress
      → policy.egress_default_deny ≡ true
      → any (λ r. permits switch laws from_nic r p) policy.egress ≡ false
      → switch.decide result_table (own ++ others) p ≡ drop
  unfolding egress_flows
  deny_lem e e' other fits fits' default refused =
      decide_egress (deny_egress tap mac)
        (rw default (
          Memᴰ-append_right (deny_egress tap mac) allowed ((deny_egress tap mac) ∷ [])
            (Memᴰ.head refl)))
        refl (omega arith) ((guest_lem e e' ip).0)
        (rw default (
          All-append (Beaten switch result_table p (deny_egress tap mac)) allowed
            ((deny_egress tap mac) ∷ [])
            (Beaten-misses switch laws tap mac policy others p is_new rest (deny_egress tap mac)
              allowed (hits_lem e e' fits' ∙ refused))
            ((λ t m. inr refl), tt)))
        other fits

  Memᴰ-allowed :
      (f : Flow)
      → policy.egress_default_deny ≡ true
      → Memᴰ f allowed
      → Memᴰ f (egress_flows tap mac policy)
  unfolding egress_flows
  Memᴰ-allowed f default m = rw default (Memᴰ-append_left f allowed ((deny_egress tap mac) ∷ []) m)

  Beaten-allowed :
      (f : Flow)
      → policy.egress_default_deny ≡ true
      → 20 < f.priority
      → f.action ≡ commit_normal (zone_for tap)
      → All (Beaten switch result_table p f) (egress_flows tap mac policy)
  unfolding egress_flows
  Beaten-allowed f default up a = rw default (
      All-append (Beaten switch result_table p f) allowed ((deny_egress tap mac) ∷ [])
        (Beaten-rules switch laws tap mac policy others p is_new rest f 90 (from_guest tap mac)
          from_nic policy.egress (inr (sym a)))
        ((λ t m. inl (omega arith)), tt))

  permitted_lem :
      p.port ≡ tap
      → p.src_mac ≡ mac
      → p.dst_mac ≢ mac
      → FitsPorts policy.ingress
      → FitsPorts policy.egress
      → policy.egress_default_deny ≡ true
      → any (λ r. permits switch laws from_nic r p) policy.egress ≡ true
      → switch.decide result_table (own ++ others) p ≡ commit_normal (zone_for tap)
  permitted_lem e e' other fits fits' default permitted =
      let (f, m, hit) =
        any-Memᴰ (hits switch laws tap p) allowed (hits_lem e e' fits' ∙ permitted) in
      let (t, n, a) =
        All-Memᴰ (Uniform tap 90) f allowed m
          (rule_flows-uniform switch laws tap p 90 (from_guest tap mac) from_nic policy.egress) in
      decide_egress f (Memᴰ-allowed f default m) t (omega arith) hit
        (Beaten-allowed f default (omega arith) a) other fits
      ∙ a

  -- A new connection that the NIC opens with its own MAC to another one is let through, if its policy
  -- does not deny by default or a rule of its egress list permits it, and else dropped.
  pub new_egress :
      p.port ≡ tap
      → p.src_mac ≡ mac
      → p.dst_mac ≢ mac
      → (covers ip p.kind || covers ipv6 p.kind) ≡ true
      → FitsPorts policy.ingress
      → FitsPorts policy.egress
      → switch.decide result_table (own ++ others) p ≡ (
          if not policy.egress_default_deny
            || any (λ r. permits switch laws from_nic r p) policy.egress
          then commit_normal (zone_for tap)
          else drop)
  new_egress e e' other kind fits fits' =
      verdict policy.egress_default_deny (any (λ r. permits switch laws from_nic r p) policy.egress)
        (switch.decide result_table (own ++ others) p) (commit_normal (zone_for tap)) drop
        (λ default. open_egress e e' other fits default kind)
        (λ default permitted. permitted_lem e e' other fits fits' default permitted)
        λ default refused. deny_lem e e' other fits fits' default refused
