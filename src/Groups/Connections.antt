-- ===== src/Groups/Connections.antt =====
-- From the rules in the database to the flows on the bridge.
use vquasar.Firewall.Switch.{Switch, SwitchLaws, Packet}
use vquasar.Groups.Allowed.{allows}
use vquasar.Groups.Binding.{
  effective_groups, rules_for_groups, in_direction, resolve_policy, policy_of,
}
use vquasar.Groups.{SecurityGroupRule, GroupMembers}
use vquasar.Firewall.{Dir, Flow, Policy, zone_for}
use vquasar.Firewall.Entry.{IsTracked, as_new}
use vquasar.Groups.Defaults.{is_group}
use vquasar.Firewall.Decisions.{IsOther}
use vquasar.Base.{Option, List, ℕ, Bool, String, any, All, ◌&&◌}

module _ (switch : Switch) (laws : SwitchLaws switch) (rows : GroupMembers)
    (rules : List SecurityGroupRule) (p : Packet) where
  -- Whether a rule of the groups allows the packet in a direction.
  abbrev pub allowed : Dir → String → List ℕ → Bool
  allowed dir direction groups =
      any (λ r. in_direction direction r && allows switch laws rows dir p r)
        (rules_for_groups rules groups)

  abbrev resolved : Bool → List ℕ → Policy
  resolved egress_enforced groups = policy_of (resolve_policy egress_enforced rules rows groups)

  -- Whether a rule of the groups that pass the test allows the packet in a direction.
  abbrev pub allowed_by : Dir → String → (ℕ → Bool) → Bool
  allowed_by dir direction is_of =
      any
        (λ r.
          is_of r.security_group_id
          && (in_direction direction r && allows switch laws rows dir p r))
        rules

  -- Whether a rule of the NIC's own groups, or of the defaults, allows the packet.
  abbrev pub granted : Bool → Option ℕ → Option ℕ → List ℕ → Dir → String → Bool
  granted enforced network_default project_default nic dir direction =
      allowed_by dir direction (is_group enforced network_default project_default nic)

module _ (switch : Switch) (laws : SwitchLaws switch) (rows : GroupMembers)
    (rules : List SecurityGroupRule) (p : Packet) (enforced egress_enforced : Bool)
    (network_default project_default : Option ℕ) (nic : List ℕ) (tap mac : String)
    (others : List Flow) (tracked : IsTracked p) (rest : All (IsOther switch p) others)
    (rest_new : All (IsOther switch (as_new (zone_for tap) p)) others) where
  abbrev groups : List ℕ
  groups = effective_groups enforced network_default project_default nic

  abbrev policy : Policy
  policy = resolved switch laws rows rules p egress_enforced groups
