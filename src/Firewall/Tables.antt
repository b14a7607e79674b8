-- ===== src/Firewall/Tables.antt =====
-- The flows of one rule list, and lists of flows that a packet does not match.
use vquasar.Base.{All-append, all_append, any_append}
use vquasar.Firewall.Rules.{permits}
use vquasar.Firewall.{
  Flow, rule_flows, Field, Dir, SecRule, flow, high_port, result_table, commit_normal, fresh,
  zone_for, rule_matches,
}
use mathlib.Core.Path.{ap₂, ap}
use vquasar.Firewall.{rule_matches}
use vquasar.Firewall.Rules.{permits, rule_lem, and_false}
use vquasar.Base.{
  refl, true, false, [], ◌∷◌, Bool, List, All, any, String, ◌++◌, ◌≡◌, ◌&&◌, ◌||◌, ℕ, map, ◌≤◌, ◌∙◌,
  ap, All-append, all_append, any_append,
}
use vquasar.Firewall.Switch.{matches, field_holds, Switch, SwitchLaws, Packet}

distribute : (a b c : Bool) → ((a && b) || (a && c)) ≡ (a && (b || c))
distribute true b c = refl
distribute false b c = refl

module _ (switch : Switch) (laws : SwitchLaws switch) (tap : String) (p : Packet) where
  abbrev pub hits : Flow → Bool
  hits g = matches switch p g.fields

  -- Flows of one rule: a common prefix before each of its matches.
  map_lem :
      (priority : ℕ) (prefix : List Field) (ms : List (List Field))
      → any hits (
          map (λ m. flow tap result_table priority (prefix ++ m) (commit_normal (zone_for tap))) ms)
        ≡ (matches switch p prefix && any (matches switch p) ms)
  map_lem priority prefix [] = and_false (matches switch p prefix)
  map_lem priority prefix (m ∷ ms) =
      rw (all_append (field_holds switch p) prefix m, map_lem priority prefix ms)
        (distribute (matches switch p prefix) (matches switch p m) (any (matches switch p) ms))

  -- A packet matches a flow of a rule list exactly if it comes from the list's end and a rule permits it.
  pub rule_flows_lem :
      (priority : ℕ) (ends : List Field) (dir : Dir) (rs : List SecRule)
      → All (λ r. high_port r ≤ 65535) rs
      → any hits (rule_flows tap priority ends dir rs)
        ≡ (matches switch p (fresh tap ++ ends) && any (λ r. permits switch laws dir r p) rs)
  unfolding rule_flows
  rule_flows_lem priority ends dir [] h = and_false (matches switch p (fresh tap ++ ends))
  rule_flows_lem priority ends dir (r ∷ rs) h =
      any_append hits _ (rule_flows tap priority ends dir rs)
      ∙ ap₂ ◌||◌
          (map_lem priority (fresh tap ++ ends) (rule_matches r dir)
            ∙ ap (λ b. matches switch p (fresh tap ++ ends) && b)
                (rule_lem switch laws dir r p h.0))
          (rule_flows_lem priority ends dir rs h.1)
      ∙ distribute (matches switch p (fresh tap ++ ends)) (permits switch laws dir r p) _

  pub rule_flows-uniform :
      (priority : ℕ) (ends : List Field) (dir : Dir) (rs : List SecRule)
      → All
          (λ g.
            (g.table ≡ result_table)
            × (g.priority ≡ priority)
            × (g.action ≡ commit_normal (zone_for tap)))
          (rule_flows tap priority ends dir rs)
  unfolding rule_flows
  rule_flows-uniform priority ends dir [] = tt
  rule_flows-uniform priority ends dir (r ∷ rs) =
      All-append _ _ _ (uniform (rule_matches r dir)) (rule_flows-uniform priority ends dir rs)
    where
      uniform :
          (ms : List (List Field))
          → All
              (λ g.
                (g.table ≡ result_table)
                × (g.priority ≡ priority)
                × (g.action ≡ commit_normal (zone_for tap)))
              (map
                (λ m.
                  flow tap result_table priority
                    (fresh tap ++ ends ++ m)
                    (commit_normal (zone_for tap)))
                ms)
      uniform [] = tt
      uniform (m ∷ ms) = ((refl, refl, refl), uniform ms)
