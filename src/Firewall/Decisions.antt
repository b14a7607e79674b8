-- ===== src/Firewall/Decisions.antt =====
-- What the result table does with a packet of a new connection.
use vquasar.Base.{All-append}
use vquasar.Base.{Memᴰ-append_left, Memᴰ-append_right, any-All}
use vquasar.Firewall.Tables.{hits, rule_flows-uniform}
use vquasar.Base.{
  ==_iff, refl, true, false, [], ◌∷◌, List, String, All, ◌≡◌, any, ℕ, ◌<◌, ◌⊎◌, Bool, Memᴰ, arith,
  inl, ◌≤◌, All-mono, inr, ◌∙◌, ◌++◌, Memᴰ-append_left, Memᴰ-append_right, any-All,
}
use vquasar.Firewall.Tables.{hits, rule_flows-uniform}
use vquasar.Firewall.Switch.{matches, field_holds, Beaten, Switch, Packet, SwitchLaws}
use vquasar.Firewall.{
  drop, SecRule, Flow, Policy, Action, build_flows, high_port, result_table, zone_for, Field,
  commit_normal, table_0_flows, Dir, egress_flows, stateful_flows, rule_flows, dl_dst, to_nic,
  last_flows, fresh, flow, from_guest,
}

-- Conntrack has tracked the packet in the NIC's zone, and takes it for the first of a connection.
pub record IsNew (tap : String) (p : Packet) : Type 0 where
  pub zone : p.zone ≡ zone_for tap
  pub is_new : p.is_new ≡ true
  pub not_est : p.is_est ≡ false
  pub not_rel : p.is_rel ≡ false
  pub not_inv : p.is_inv ≡ false

-- A flow of another NIC, or the bridge's own flow of priority 0.
abbrev pub IsOther : Switch → Packet → Flow → Type 0
IsOther switch p g = (matches switch p g.fields ≡ false) ⊎ (g.priority ≡ 0)

abbrev pub FitsPorts : List SecRule → Type 0
FitsPorts rs = All (λ r. high_port r ≤ 65535) rs

abbrev pub Uniform : String → ℕ → Flow → Type 0
Uniform tap priority g =
    (g.table ≡ result_table) × (g.priority ≡ priority) × (g.action ≡ commit_normal (zone_for tap))

abbrev pub deny_egress : String → String → Flow
deny_egress tap mac = flow tap result_table 20 (fresh tap ++ from_guest tap mac) drop

module _ (tap mac : String) (policy : Policy) where
  abbrev pub zone : Action
  zone = commit_normal (zone_for tap)

  abbrev pub ingress_flows : List Flow
  ingress_flows = rule_flows tap 80 (dl_dst mac ∷ []) to_nic policy.ingress

  abbrev pub before_egress : List Flow
  before_egress = table_0_flows tap mac ++ stateful_flows tap

  abbrev pub before_ingress : List Flow
  before_ingress = before_egress ++ egress_flows tap mac policy

  abbrev pub before_last : List Flow
  before_last = before_ingress ++ ingress_flows

  -- Membership in the NIC's flows, by the part that a flow stands in.
  pub Memᴰ-egress :
      (f : Flow) → Memᴰ f (egress_flows tap mac policy) → Memᴰ f (build_flows tap mac policy)
  unfolding build_flows
  Memᴰ-egress f m = Memᴰ-append_left f before_last (last_flows tap mac) (
      Memᴰ-append_left f before_ingress ingress_flows
        (Memᴰ-append_right f before_egress (egress_flows tap mac policy) m))

  pub Memᴰ-table_0 :
      (f : Flow) → Memᴰ f (table_0_flows tap mac) → Memᴰ f (build_flows tap mac policy)
  unfolding build_flows
  Memᴰ-table_0 f m = Memᴰ-append_left f before_last (last_flows tap mac) (
      Memᴰ-append_left f before_ingress ingress_flows (
        Memᴰ-append_left f before_egress (egress_flows tap mac policy)
          (Memᴰ-append_left f (table_0_flows tap mac) (stateful_flows tap) m)))

  pub Memᴰ-ingress : (f : Flow) → Memᴰ f ingress_flows → Memᴰ f (build_flows tap mac policy)
  unfolding build_flows
  Memᴰ-ingress f m =
      Memᴰ-append_left f before_last (last_flows tap mac)
        (Memᴰ-append_right f before_ingress ingress_flows m)

  pub Memᴰ-last : (f : Flow) → Memᴰ f (last_flows tap mac) → Memᴰ f (build_flows tap mac policy)
  unfolding build_flows
  Memᴰ-last f m = Memᴰ-append_right f before_last (last_flows tap mac) m

module _ (switch : Switch) (laws : SwitchLaws switch) (tap mac : String) (policy : Policy)
    (others : List Flow) (p : Packet) (is_new : IsNew tap p)
    (rest : All (IsOther switch p) others) where
  pub Beaten-table : (f g : Flow) → g.table ≡ 0 → Beaten switch result_table p f g
  Beaten-table f g zero t m = absurd (omega arith)

  Beaten-miss : (f g : Flow) → matches switch p g.fields ≡ false → Beaten switch result_table p f g
  Beaten-miss f g miss t m = absurd (both miss m)
    where
      both : {b : Bool} → b ≡ false → b ≡ true → ⊥
      both x y = cc

  pub Beaten-misses :
      (f : Flow) (gs : List Flow)
      → any (hits switch laws tap p) gs ≡ false
      → All (Beaten switch result_table p f) gs
  Beaten-misses f gs none =
      All-mono gs (λ g. Beaten-miss f g) (any-All (hits switch laws tap p) gs none)

  Beaten-others : (f : Flow) → 0 < f.priority → All (Beaten switch result_table p f) others
  Beaten-others f up = All-mono others low rest
    where
      low : (g : Flow) → IsOther switch p g → Beaten switch result_table p f g
      low g (inl miss) = Beaten-miss f g miss
      low g (inr zero) = λ t m. inl (omega arith)

  pub Beaten-table_0 : (f : Flow) → All (Beaten switch result_table p f) (table_0_flows tap mac)
  Beaten-table_0 f =
      All-mono (table_0_flows tap mac) (λ g. Beaten-table f g)
        (refl, (refl, (refl, (refl, (refl, (refl, (refl, (refl, (refl, (refl, tt))))))))))

  stateful_lem : any (hits switch laws tap p) (stateful_flows tap) ≡ false
  unfolding field_holds
  stateful_lem = ground (arith, is_new.not_est, is_new.not_rel, is_new.not_inv)

  -- A rule list of lower priority, or with the same actions.
  pub Beaten-rules :
      (f : Flow) (priority : ℕ) (ends : List Field) (dir : Dir) (rs : List SecRule)
      → (priority < f.priority) ⊎ (zone tap mac policy ≡ f.action)
      → All (Beaten switch result_table p f) (rule_flows tap priority ends dir rs)
  Beaten-rules f priority ends dir rs low =
      All-mono (rule_flows tap priority ends dir rs) beaten
        (rule_flows-uniform switch laws tap p priority ends dir rs)
    where
      beaten :
          (g : Flow)
          → (g.table ≡ result_table) × (g.priority ≡ priority) × (g.action ≡ zone tap mac policy)
          → Beaten switch result_table p f g
      beaten g (t, n, a) _ _ = elim low [ inl lt ↦ inl (omega arith) | inr same ↦ inr (a ∙ same) ]

  pub fresh_lem : matches switch p (fresh tap) ≡ true
  unfolding field_holds
  fresh_lem = let z = (==_iff p.zone (zone_for tap)).1 is_new.zone in ground (arith, is_new.is_new)

  pub Beaten-last :
      (f : Flow)
      → (10 < f.priority) ⊎ (drop ≡ f.action)
      → All (Beaten switch result_table p f) (last_flows tap mac)
  Beaten-last f low = ((λ t m. low), ((λ t m. absurd (omega arith)), tt))

  -- A flow among the NIC's own applies, if it beats those of its table that differ between directions.
  pub decide_lem :
      (f : Flow)
      → Memᴰ f (build_flows tap mac policy)
      → f.table ≡ result_table
      → 0 < f.priority
      → matches switch p f.fields ≡ true
      → All (Beaten switch result_table p f) (egress_flows tap mac policy)
      → All (Beaten switch result_table p f) (ingress_flows tap mac policy)
      → All (Beaten switch result_table p f) (last_flows tap mac)
      → switch.decide result_table (build_flows tap mac policy ++ others) p ≡ f.action
  unfolding build_flows
  decide_lem f mem table up m egress ingress last =
      laws.highest result_table (build_flows tap mac policy ++ others) p f
        (Memᴰ-append_left f (build_flows tap mac policy) others mem) table m
        (All-append (Beaten switch result_table p f) (build_flows tap mac policy) others
          (All-append (Beaten switch result_table p f) (before_last tap mac policy)
            (last_flows tap mac)
            (All-append (Beaten switch result_table p f) (before_ingress tap mac policy)
              (ingress_flows tap mac policy)
              (All-append (Beaten switch result_table p f) (before_egress tap mac policy)
                (egress_flows tap mac policy)
                (All-append (Beaten switch result_table p f) (table_0_flows tap mac)
                  (stateful_flows tap) (Beaten-table_0 f)
                  (Beaten-misses f (stateful_flows tap) stateful_lem))
                egress)
              ingress)
            last)
          (Beaten-others f up))
