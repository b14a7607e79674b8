-- ===== src/Firewall/Install.antt =====
-- The flows of a bridge under `apply`, `apply_port_security` and `clear`, and `apply_firewall` of
-- services/agent/src/network.rs: what `ovs-ofctl` leaves when it does what it is asked. The flows that
-- `del-flows` selects are those of a cookie and a table; `add-flows` adds its input, each flow in place of
-- one with the same table, priority and match. When two matches are the same is the switch's, a parameter.
use vquasar.Base.{All-append, any, if◌then◌else◌, sym}
use vquasar.Firewall.Decisions.{
  before_last, before_ingress, deny_egress, ingress_flows, before_egress,
}
use vquasar.Firewall.{
  build_flows, rule_flows, Flow, Policy, build_port_security_flows, Field, Dir, cookie_for, SecRule,
  result_table, egress_flows, flow, table_0_flows, fresh, from_guest, last_flows, stateful_flows,
  commit_normal, from_nic, zone_for, dl_dst, rule_matches, to_nic,
}
use mathlib.Core.Path.{sym}
use vquasar.Base.{
  [], ◌∷◌, refl, ◌++◌, true, false, Bool, String, List, ℕ, All, keep, ◌==◌, ◌≡◌, Bool-cases, not,
  inl, ◌&&◌, ==_iff, ap, inr, ◌||◌, All-mono, ◌∙◌, ◌⊎◌, map,
}

abbrev is_cleared : String → Flow → Bool
is_cleared tap f = (f.cookie == cookie_for tap) && ((f.table == 0) || (f.table == result_table))

unfoldable pub clear : String → List Flow → List Flow
clear tap flows = keep (λ f. not (is_cleared tap f)) flows

abbrev pub installed : Bool → Bool → String → String → Policy → List Flow
installed true port_security tap mac policy = build_flows tap mac policy
installed false true tap mac policy = build_port_security_flows tap mac
installed false false tap mac policy = []

-- `add-flows`, with the switch's test for the same table, priority and match.
unfoldable pub add_flows : (Flow → Flow → Bool) → List Flow → List Flow → List Flow
add_flows same [] flows = flows
add_flows same (f ∷ fs) flows = add_flows same fs (f ∷ keep (λ g. not (same f g)) flows)

-- On a bridge: whether the NIC is filtered, and whether the host has port security.
unfoldable pub apply_firewall :
    (Flow → Flow → Bool) → Bool → Bool → String → String → Policy → List Flow → List Flow
unfolding add_flows
apply_firewall same filtered port_security tap mac policy flows =
    add_flows same (installed filtered port_security tap mac policy) (clear tap flows)

and_left : (a b : Bool) → (a && b) ≡ true → a ≡ true
and_left true b e = refl
and_left false b e = e

-- A flow with the cookie, in one of the two tables.
abbrev IsOwn : String → Flow → Type 0
IsOwn tap f = (f.cookie ≡ cookie_for tap) × ((f.table ≡ 0) ⊎ (f.table ≡ result_table))

abbrev Cleared : String → Flow → Type 0
Cleared tap f = is_cleared tap f ≡ true

-- The flows that one of the new flows replaces.
abbrev pub is_replaced : (Flow → Flow → Bool) → List Flow → Flow → Bool
is_replaced same fs g = any (λ f. same f g) fs

abbrev stays : (Flow → Flow → Bool) → String → List Flow → Flow → Bool
stays same tap fs g = not (is_cleared tap g) && not (is_replaced same fs g)

keep_twice : (p q : Flow → Bool) (gs : List Flow) → keep p (keep q gs) ≡ keep (λ g. q g && p g) gs
keep_twice p q [] = refl
keep_twice p q (g ∷ gs) = go (q g) (keep_twice p q gs)
  where
    go :
        (b : Bool)
        → keep p (keep q gs) ≡ keep (λ g. q g && p g) gs
        → keep p (let rest = keep q gs in if b then g ∷ rest else rest)
          ≡ (let rest = keep (λ g. q g && p g) gs in if b && p g then g ∷ rest else rest)
    go true e = ap (λ rest. if p g then g ∷ rest else rest) e
    go false e = e

keep_same : (p q : Flow → Bool) (gs : List Flow) → ((g : Flow) → p g ≡ q g) → keep p gs ≡ keep q gs
keep_same p q [] h = refl
keep_same p q (g ∷ gs) h = rw (h g, keep_same p q gs h) refl

arrange : (c a r : Bool) → (not a && (not c && not r)) ≡ (not c && not (a || r))
arrange true true r = refl
arrange true false r = refl
arrange false true r = refl
arrange false false r = refl

-- Clearing after `add-flows` of flows that are the NIC's leaves what neither is cleared nor replaced.
cleared_lem :
    (same : Flow → Flow → Bool) (tap : String) (fs flows : List Flow)
    → All (Cleared tap) fs
    → clear tap (add_flows same fs flows) ≡ keep (stays same tap fs) flows
unfolding clear add_flows
cleared_lem same tap [] flows h =
    keep_same (λ g. not (is_cleared tap g)) (stays same tap []) flows λ g. sym (and_true _)
  where
    and_true : (b : Bool) → (b && true) ≡ b
    and_true true = refl
    and_true false = refl
cleared_lem same tap (f ∷ fs) flows h =
    cleared_lem same tap fs (f ∷ keep (λ g. not (same f g)) flows) h.1
    ∙ (rw (h.0) refl
        ∙ (keep_twice (stays same tap fs) (λ g. not (same f g)) flows
            ∙ keep_same _ (stays same tap (f ∷ fs)) flows
                λ g. arrange (is_cleared tap g) (same f g) (is_replaced same fs g)))

own-Cleared : (tap : String) (f : Flow) → IsOwn tap f → Cleared tap f
own-Cleared tap f (c, inl t) = rw ((==_iff f.cookie (cookie_for tap)).1 c, t) refl
own-Cleared tap f (c, inr t) = rw ((==_iff f.cookie (cookie_for tap)).1 c, t) refl

rules_lem :
    (tap : String) (priority : ℕ) (ends : List Field) (dir : Dir) (rs : List SecRule)
    → All (IsOwn tap) (rule_flows tap priority ends dir rs)
unfolding rule_flows
rules_lem tap priority ends dir [] = tt
rules_lem tap priority ends dir (r ∷ rs) =
    All-append (IsOwn tap) (map to_flow (rule_matches r dir)) (rule_flows tap priority ends dir rs)
      (own (rule_matches r dir)) (rules_lem tap priority ends dir rs)
  where
    to_flow : List Field → Flow
    to_flow m =
        flow tap result_table priority (fresh tap ++ ends ++ m) (commit_normal (zone_for tap))

    own : (ms : List (List Field)) → All (IsOwn tap) (map to_flow ms)
    own [] = tt
    own (m ∷ ms) = ((refl, inr refl), own ms)

egress_lem : (tap mac : String) (policy : Policy) → All (IsOwn tap) (egress_flows tap mac policy)
unfolding egress_flows
egress_lem tap mac policy = elim (Bool-cases policy.egress_default_deny) [
  | inr open_egress ↦ rw open_egress ((refl, inr refl), ((refl, inr refl), tt))
  | inl deny ↦ rw deny (
      All-append (IsOwn tap) (rule_flows tap 90 (from_guest tap mac) from_nic policy.egress)
        (deny_egress tap mac ∷ []) (rules_lem tap 90 (from_guest tap mac) from_nic policy.egress)
        ((refl, inr refl), tt))
]

first_lem : (tap mac : String) → All (IsOwn tap) (table_0_flows tap mac ++ stateful_flows tap)
first_lem tap mac = (
  (refl, inl refl),
  (
    (refl, inl refl),
    (
      (refl, inl refl),
      (
        (refl, inl refl),
        (
          (refl, inl refl),
          (
            (refl, inl refl),
            (
              (refl, inl refl),
              (
                (refl, inl refl),
                (
                  (refl, inl refl),
                  (
                    (refl, inl refl),
                    ((refl, inr refl), ((refl, inr refl), ((refl, inr refl), tt))),
                  ),
                ),
              ),
            ),
          ),
        ),
      ),
    ),
  ),
)

policy_lem : (tap mac : String) (policy : Policy) → All (IsOwn tap) (build_flows tap mac policy)
unfolding build_flows
policy_lem tap mac policy =
    All-append (IsOwn tap) (before_last tap mac policy) (last_flows tap mac)
      (All-append (IsOwn tap) (before_ingress tap mac policy) (ingress_flows tap mac policy)
        (All-append (IsOwn tap) (before_egress tap mac policy) (egress_flows tap mac policy)
          (first_lem tap mac) (egress_lem tap mac policy))
        (rules_lem tap 80 (dl_dst mac ∷ []) to_nic policy.ingress))
      ((refl, inr refl), ((refl, inl refl), tt))

installed_lem :
    (filtered port_security : Bool) (tap mac : String) (policy : Policy)
    → All (Cleared tap) (installed filtered port_security tap mac policy)
unfolding build_port_security_flows
installed_lem true port_security tap mac policy =
    All-mono (build_flows tap mac policy) (own-Cleared tap) (policy_lem tap mac policy)
installed_lem false true tap mac policy =
    All-mono (build_port_security_flows tap mac) (own-Cleared tap)
      ((refl, inl refl), ((refl, inl refl), ((refl, inl refl), tt)))
installed_lem false false tap mac policy = tt

-- Clearing a NIC after its firewall was applied leaves, of the flows that the bridge had before,
-- those that are not the NIC's and that none of the NIC's new flows replaced: a flow of another NIC
-- with the same table, priority and match is lost.
pub clear-apply_firewall :
    (same : Flow → Flow → Bool) (filtered port_security : Bool) (tap mac : String) (policy : Policy)
    (flows : List Flow)
    → clear tap (apply_firewall same filtered port_security tap mac policy flows) ≡ (
        keep
          (λ g. not (is_replaced same (installed filtered port_security tap mac policy) g))
          (clear tap flows))
unfolding apply_firewall clear
clear-apply_firewall same filtered port_security tap mac policy flows =
    let own = installed filtered port_security tap mac policy in
    cleared_lem same tap own (clear tap flows) (installed_lem filtered port_security tap mac policy)
    ∙ (keep_twice (stays same tap own) (λ g. not (is_cleared tap g)) flows
        ∙ (keep_same _ _ flows (λ g. once (is_cleared tap g) (is_replaced same own g))
            ∙ sym (
                keep_twice (λ g. not (is_replaced same own g)) (λ g. not (is_cleared tap g))
                  flows)))
  where
    once : (c r : Bool) → (not c && (not c && not r)) ≡ (not c && not r)
    once true r = refl
    once false r = refl
