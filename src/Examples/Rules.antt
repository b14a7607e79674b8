-- ===== src/Examples/Rules.antt =====
-- Rules of security groups, one of them for the members of another group.
use vquasar.Examples.Specs.{spec}
use vquasar.Model.{VirtualMachineSpec}
use vquasar.Firewall.Switch.{Packet}
use vquasar.Groups.Binding.{resolve_policy, effective_groups, member_rows}
use vquasar.Examples.Firewalls.{mac, packet_in, packet_out}
use vquasar.Base.{[], ◌∷◌, true, refl, none, some, List, ◌≡◌, inl, false}
use vquasar.Base.Int.{pos}
use vquasar.Groups.{CreateRule, row_of, GroupMembers, SecurityGroupRule}
use vquasar.Groups.Enforced.{enforced-is_filtered}

abbrev ssh_request : CreateRule
ssh_request = record {
  direction = "ingress";
  ethertype = "IPv4";
  protocol = "tcp";
  port_min = some (pos 22);
  port_max = none;
  remote_cidr = none;
  remote_group_id = some 2;
}

abbrev members : GroupMembers
members = (2, "10.0.0.7") ∷ []

abbrev peer : VirtualMachineSpec
peer = record spec {
  network_interfaces =
      record { network_id = 3; mac = none; addresses = []; security_groups = 2 ∷ [] } ∷ [];
}

members_are_joined :
    member_rows (record { vm_id = 8; nic_index = 0; ip = "10.0.0.7" } ∷ []) ((8, peer) ∷ [])
    ≡ members
unfolding member_rows
members_are_joined = refl

abbrev rules : List SecurityGroupRule
rules = row_of 5 1 ssh_request ∷ []

-- The packets before conntrack has seen them.
abbrev arriving : Packet
arriving = record packet_in { zone = 0; is_new = false }

abbrev leaving : Packet
leaving = record packet_out { zone = 0; is_new = false }

enforced-is_filtered_example :
    (resolve_policy true rules members (effective_groups true (some 1) none [])).filtered ≡ true
enforced-is_filtered_example =
    enforced-is_filtered true rules members (some 1) none [] (inl λ e. cc)
