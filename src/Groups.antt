-- ===== src/Groups.antt =====
-- Security groups, from the rule that a user adds to the flows of a NIC: services/control/src/api/
-- security_groups.rs, the part of services/control/src/reconcile.rs that resolves a NIC's policy, and
-- `sec_rule` and `apply_firewall` of the agent. The parsing of a CIDR is a parameter, and the rows of the
-- tables are arguments; `member_rows` of Groups/Binding is the join that finds the members of groups.
pub mod Ports
pub mod Binding
pub mod Allowed
pub mod Defaults
pub mod Enforced
pub mod Connections
use vquasar.Base.{
  Bool, List, Option, String, ℕ, ◌%◌, [], false, if◌then◌else◌, not, some, str_eq, true, ◌&&◌, ◌^◌,
  ◌∷◌, map, none, ◌==◌, ◌||◌, keep,
}
use vquasar.Base.Result.{Result, ok, err, ◌>>◌, refuse_if}
use vquasar.Base.Int.{ℤ, pos_part, leb_ℤ, ltb_ℤ, pos}
use vquasar.Base.Text.{trim, is_blank, contains_char, eq_ignore_ascii_case}
use vquasar.Firewall.{
  SecRule, Policy, Flow, build_flows, build_port_security_flows, cookie_for, Action,
}
use Prim.Native.String.{◌++◌ as ◌<>◌, String, []}

pub record CreateRule : Type 0 where
  pub direction : String
  pub ethertype : String
  pub protocol : String
  pub port_min : Option ℤ
  pub port_max : Option ℤ
  pub remote_cidr : Option String
  pub remote_group_id : Option ℕ

-- The texts of `ApiError::invalid`, and the 404 of a group out of scope.
pub data RuleError : Type 0 where
  two_remotes bad_direction bad_ethertype bad_protocol : RuleError
  ports_without_protocol bad_port inverted_ports bad_cidr : RuleError
  egress_not_enforced group_not_found : RuleError

abbrev has_text : Option String → Bool
has_text none = false
has_text (some c) = not (str_eq (trim c) "")

abbrev pub has_port_protocol : String → Bool
has_port_protocol protocol = str_eq protocol "tcp" || str_eq protocol "udp"

-- The body of the loop over the two ports.
abbrev check_port : Bool → Option ℤ → Result RuleError (Unit {0})
check_port has_ports none = ok tt
check_port has_ports (some p) =
    refuse_if (not has_ports) ports_without_protocol
    >> refuse_if (not (leb_ℤ (pos 0) p && leb_ℤ p (pos 65535))) bad_port

abbrev check_order : Option ℤ → Option ℤ → Result RuleError (Unit {0})
check_order (some lo) (some hi) = refuse_if (ltb_ℤ hi lo) inverted_ports
check_order (some lo) none = ok tt
check_order none hi = ok tt

abbrev pub check_ports : CreateRule → Result RuleError (Unit {0})
check_ports r =
    check_port (has_port_protocol r.protocol) r.port_min
    >> (check_port (has_port_protocol r.protocol) r.port_max >> check_order r.port_min r.port_max)

abbrev check_cidr : (String → Bool) → Option String → Result RuleError (Unit {0})
check_cidr parses none = ok tt
check_cidr parses (some c) = refuse_if (not (str_eq (trim c) "") && not (parses (trim c))) bad_cidr

abbrev is_some : Option ℕ → Bool
is_some none = false
is_some (some g) = true

unfoldable pub validate_rule : (String → Bool) → CreateRule → Result RuleError (Unit {0})
validate_rule parses r =
    refuse_if (is_some r.remote_group_id && has_text r.remote_cidr) two_remotes
    >> (refuse_if (not (str_eq r.direction "ingress" || str_eq r.direction "egress")) bad_direction
        >> (refuse_if (not (str_eq r.ethertype "IPv4" || str_eq r.ethertype "IPv6")) bad_ethertype
            >> (refuse_if
                  (not (
                    has_port_protocol r.protocol
                    || str_eq r.protocol "icmp"
                    || str_eq r.protocol "any"))
                  bad_protocol
                >> (check_ports r >> check_cidr parses r.remote_cidr))))

pub record SecurityGroupRule : Type 0 where
  pub id : ℕ
  pub security_group_id : ℕ
  pub direction : String
  pub ethertype : String
  pub protocol : String
  pub port_min : Option ℤ
  pub port_max : Option ℤ
  pub remote_cidr : Option String
  pub remote_group_id : Option ℕ

abbrev trimmed : Option String → Option String
trimmed none = none
trimmed (some c) = if str_eq (trim c) "" then none else some (trim c)

abbrev remote_in_scope : (ℕ → Bool) → Option ℕ → Bool
remote_in_scope in_scope none = true
remote_in_scope in_scope (some g) = in_scope g

abbrev pub row_of : ℕ → ℕ → CreateRule → SecurityGroupRule
row_of new group body = record {
  id = new;
  security_group_id = group;
  direction = body.direction;
  ethertype = body.ethertype;
  protocol = body.protocol;
  port_min = body.port_min;
  port_max = body.port_max;
  remote_cidr = trimmed body.remote_cidr;
  remote_group_id = body.remote_group_id;
}

-- The rules of the database after the request, with the new row under the id `new`.
unfoldable pub add_rule :
    (String → Bool)
    → (ℕ → Bool)
    → Bool
    → ℕ
    → ℕ
    → CreateRule
    → List SecurityGroupRule
    → Result RuleError (List SecurityGroupRule)
add_rule parses in_scope egress_enforced new group body rules =
    refuse_if (not (in_scope group)) group_not_found
    >> (validate_rule parses body
        >> (refuse_if (str_eq body.direction "egress" && not egress_enforced) egress_not_enforced
            >> (refuse_if (not (remote_in_scope in_scope body.remote_group_id)) group_not_found
                >> ok (row_of new group body ∷ rules))))

-- The message of the control plane's call.
pub record SecurityRule : Type 0 where
  pub ipv6 : Bool
  pub protocol : String
  pub port_min : ℕ
  pub port_max : ℕ
  pub remote_cidr : String

abbrev pub GroupMembers : Type 0
GroupMembers = List (ℕ × String)

-- `members.get`, of the map that `addresses_in_groups` fills from its rows.
abbrev pub addresses : GroupMembers → ℕ → List String
addresses [] g = []
addresses ((gid, ip) ∷ rows) g = let rest = addresses rows g in if gid == g then ip ∷ rest else rest

-- `unwrap_or(0).max(0) as u32`
abbrev pub wire_port : Option ℤ → ℕ
wire_port none = 0
wire_port (some p) = pos_part p

abbrev text_or_empty : Option String → String
text_or_empty none = ""
text_or_empty (some c) = c

abbrev pub base_rule : SecurityGroupRule → SecurityRule
base_rule r = record {
  ipv6 = eq_ignore_ascii_case r.ethertype "IPv6";
  protocol = r.protocol;
  port_min = wire_port r.port_min;
  port_max = wire_port r.port_max;
  remote_cidr = text_or_empty r.remote_cidr;
}

-- `format!("{ip}/{}", ...)`
abbrev pub host_cidr : Bool → String → String
host_cidr v6 ip = if v6 then ip <> "/128" else ip <> "/32"

abbrev pub for_member : SecurityRule → String → SecurityRule
for_member base ip = record {
  ipv6 = base.ipv6;
  protocol = base.protocol;
  port_min = base.port_min;
  port_max = base.port_max;
  remote_cidr = host_cidr base.ipv6 ip;
}

-- Whether an address is of the family: it has a colon exactly if it is IPv6.
abbrev pub of_family : Bool → String → Bool
of_family v6 ip = if v6 then contains_char 58 ip else not (contains_char 58 ip)

abbrev pub expand : SecurityRule → List String → Option ℕ → List SecurityRule
expand base ips none = base ∷ []
expand base ips (some g) = map (for_member base) (keep (of_family base.ipv6) ips)

abbrev pub group_addresses : GroupMembers → Option ℕ → List String
group_addresses members none = []
group_addresses members (some g) = addresses members g

unfoldable pub expand_rule : GroupMembers → SecurityGroupRule → List SecurityRule
expand_rule members r =
    expand (base_rule r) (group_addresses members r.remote_group_id) r.remote_group_id

-- On the agent, `port as u16`.
abbrev pub sec_rule : SecurityRule → SecRule
sec_rule r = record {
  ipv6 = r.ipv6;
  protocol = r.protocol;
  port_min = r.port_min % 2 ^ 16;
  port_max = r.port_max % 2 ^ 16;
  remote_cidr = r.remote_cidr;
}
