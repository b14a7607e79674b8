-- ===== src/Groups/Binding.antt =====
-- The policy of a NIC: the part of `resolve_bindings` that the firewall depends on, and its composition
-- with the agent's flows.
use vquasar.Model.{NetworkInterfaceSpec, VirtualMachineSpec}
use vquasar.Groups.{expand_rule, sec_rule, SecurityGroupRule, SecurityRule, GroupMembers}
use vquasar.Firewall.{Policy}
use vquasar.Base.{
  [], ◌∷◌, none, some, true, false, Option, ◌++◌, Bool, List, String, ℕ, if◌then◌else◌, keep, map,
  str_eq, elem, suc, ◌==◌, zero,
}

abbrev pub add_default : Option ℕ → List ℕ → List ℕ
add_default none groups = groups
add_default (some g) groups = if elem g groups then groups else groups ++ g ∷ []

-- The NIC's groups, with the defaults of its network and its project where policy is enforced.
unfoldable pub effective_groups : Bool → Option ℕ → Option ℕ → List ℕ → List ℕ
effective_groups enforced network_default project_default groups =
    if enforced then add_default project_default (add_default network_default groups) else groups

unfoldable pub rules_for_groups : List SecurityGroupRule → List ℕ → List SecurityGroupRule
rules_for_groups rules groups = keep (λ r. elem r.security_group_id groups) rules

-- The remote groups of some rules.
abbrev pub add_remote : Option ℕ → List ℕ → List ℕ
add_remote none groups = groups
add_remote (some g) groups = g ∷ groups

abbrev pub remotes : List SecurityGroupRule → List ℕ
remotes [] = []
remotes (r ∷ rs) = add_remote r.remote_group_id (remotes rs)

-- A row of `ip_allocations`.
pub record IpAllocation : Type 0 where
  pub vm_id : ℕ
  pub nic_index : ℕ
  pub ip : String

-- The groups of one NIC of a specification, none if it has no such NIC.
abbrev nic_groups : ℕ → List NetworkInterfaceSpec → List ℕ
nic_groups i [] = []
nic_groups zero (nic ∷ nics) = nic.security_groups
nic_groups (suc i) (nic ∷ nics) = nic_groups i nics

-- The VMs are rows by their primary key.
abbrev groups_of : IpAllocation → List (ℕ × VirtualMachineSpec) → List ℕ
groups_of a [] = []
groups_of a ((id, spec) ∷ vms) =
    let rest = groups_of a vms in
    if id == a.vm_id then nic_groups a.nic_index spec.network_interfaces else rest

-- The join of the allocations with the specifications: each address with each group of its NIC.
unfoldable pub member_rows : List IpAllocation → List (ℕ × VirtualMachineSpec) → GroupMembers
member_rows [] vms = []
member_rows (a ∷ allocations) vms =
    map (λ g. (g, a.ip)) (groups_of a vms) ++ member_rows allocations vms

-- The rows of the join that the query keeps.
unfoldable pub addresses_in_groups : GroupMembers → List ℕ → GroupMembers
addresses_in_groups rows groups = keep (λ row. elem (row.0) groups) rows

-- The part of a binding that the firewall reads.
pub record NicPolicy : Type 0 where
  pub filtered : Bool
  pub ingress_rules : List SecurityRule
  pub egress_rules : List SecurityRule
  pub egress_default_deny : Bool

abbrev pub expand_all : GroupMembers → List SecurityGroupRule → List SecurityRule
expand_all members [] = []
expand_all members (r ∷ rs) = expand_rule members r ++ expand_all members rs

abbrev pub in_direction : String → SecurityGroupRule → Bool
in_direction direction r = str_eq r.direction direction

unfoldable pub resolve_policy : Bool → List SecurityGroupRule → GroupMembers → List ℕ → NicPolicy
resolve_policy egress_enforced rules rows [] = record {
  filtered = false;
  ingress_rules = [];
  egress_rules = [];
  egress_default_deny = false;
}
resolve_policy egress_enforced rules rows (g ∷ gs) =
    let found = rules_for_groups rules (g ∷ gs) in
    let members = addresses_in_groups rows (remotes found) in
    record {
      filtered = true;
      ingress_rules = expand_all members (keep (in_direction "ingress") found);
      egress_rules =
          if egress_enforced then expand_all members (keep (in_direction "egress") found) else [];
      egress_default_deny = egress_enforced;
    }

-- What the agent makes of it.
abbrev pub policy_of : NicPolicy → Policy
policy_of b = record {
  ingress = map sec_rule b.ingress_rules;
  egress = map sec_rule b.egress_rules;
  egress_default_deny = b.egress_default_deny;
}
