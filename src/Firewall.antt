-- ===== src/Firewall.antt =====
-- services/agent/src/firewall.rs: the flows that the agent installs for a NIC. A flow is the record of
-- what the text that is handed to `ovs-ofctl` says: its table, priority, match fields and actions.
pub mod Ports
pub mod Switch
pub mod Rules
pub mod Tables
pub mod Decisions
pub mod Ingress
pub mod Egress
pub mod Entry
pub mod Spoof
pub mod Install
use vquasar.Firewall.Ports.{port_masks}
use vquasar.Base.{
  Bool, List, String, ℕ, if◌then◌else◌, str_eq, ◌%◌, ◌++◌, ◌∷◌, [], leb, map, ◌*◌, ◌+◌, ◌==◌, ◌||◌,
  ◌&&◌, ◌^◌, not,
}
use Prim.Native.String.{String, ◌∷◌, []}
use Prim.Native.Nat.{bit_or, bit_xor, ℕ}
use Prim.Native.String
use vquasar.Base.Text.{as_bytes, trim}

pub data Keyword : Type 0 where
  arp ip ipv6 icmp icmp6 tcp tcp6 udp udp6 : Keyword

pub data CtFlag : Type 0 where
  est rel inv new : CtFlag

-- One `field=value` of a match. A flag is that of `ct_state=+flag+trk`.
pub data Field : Type 0 where
  in_port dl_src dl_dst arp_sha : String → Field
  nw_src nw_dst ipv6_src ipv6_dst : String → Field
  keyword : Keyword → Field
  tp_src tp_dst : ℕ → Field
  tp_dst_mask : ℕ → ℕ → Field
  ct_zone : ℕ → Field
  ct_state : CtFlag → Field

pub data Action : Type 0 where
  normal : Action
  drop : Action
  conntrack : (table zone : ℕ) → Action
  commit_normal : (zone : ℕ) → Action

pub record Flow : Type 0 where
  pub cookie : ℕ
  pub table : ℕ
  pub priority : ℕ
  pub fields : List Field
  pub action : Action

abbrev pub result_table : ℕ
result_table = 60

pub record SecRule : Type 0 where
  pub ipv6 : Bool
  pub protocol : String
  pub port_min : ℕ
  pub port_max : ℕ
  pub remote_cidr : String

pub record Policy : Type 0 where
  pub ingress : List SecRule
  pub egress : List SecRule
  pub egress_default_deny : Bool

pub data Dir : Type 0 where
  to_nic : Dir
  from_nic : Dir

abbrev fnv_round : ℕ → List ℕ → ℕ
fnv_round h [] = h
fnv_round h (b ∷ bs) = fnv_round (bit_xor h b * 0x100000001b3 % 2 ^ 64) bs

unfoldable pub fnv1a : String → ℕ
fnv1a s = fnv_round 0xcbf29ce484222325 (as_bytes s)

unfoldable pub cookie_for : String → ℕ
cookie_for tap = bit_or (fnv1a tap) 1

-- `(... % 65535) as u16 + 1`, which is at most 65535.
unfoldable pub zone_for : String → ℕ
zone_for tap = fnv1a tap % 65535 + 1

abbrev pub proto_of : String → Bool → Keyword
proto_of protocol v6 =
    if str_eq protocol "tcp"
    then (if v6 then tcp6 else tcp)
    else if str_eq protocol "udp"
    then (if v6 then udp6 else udp)
    else if str_eq protocol "icmp"
    then (if v6 then icmp6 else icmp)
    else if v6
    then ipv6
    else ip

abbrev remote_field : Dir → Bool → String → Field
remote_field to_nic v6 cidr = if v6 then ipv6_src cidr else nw_src cidr
remote_field from_nic v6 cidr = if v6 then ipv6_dst cidr else nw_dst cidr

abbrev pub remote_match : Dir → SecRule → List Field
remote_match dir r =
    let cidr = trim r.remote_cidr in
    if str_eq cidr "" then [] else remote_field dir r.ipv6 cidr ∷ []

-- Whether the rule's ports restrict anything.
abbrev pub has_ports : SecRule → Bool
has_ports r =
    (str_eq r.protocol "tcp" || str_eq r.protocol "udp")
    && (not ((r.port_min == 0) && (r.port_max == 0))
        && not ((r.port_min == 0) && (r.port_max == 0xFFFF)))

abbrev pub low_port : SecRule → ℕ
low_port r = if leb r.port_min r.port_max then r.port_min else r.port_max

abbrev pub high_port : SecRule → ℕ
high_port r = if leb r.port_min r.port_max then r.port_max else r.port_min

abbrev pub port_field : ℕ × ℕ → Field
port_field (v, m) = if m == 0xFFFF then tp_dst v else tp_dst_mask v m

abbrev pub with_port : Keyword → List Field → ℕ × ℕ → List Field
with_port proto src vm = keyword proto ∷ port_field vm ∷ src

unfoldable pub rule_matches : SecRule → Dir → List (List Field)
rule_matches r dir =
    let proto = proto_of r.protocol r.ipv6 in
    let src = remote_match dir r in
    if has_ports r
    then map (with_port proto src) (port_masks (low_port r) (high_port r))
    else (keyword proto ∷ src) ∷ []

abbrev pub spoof_drop_priority : ℕ
spoof_drop_priority = 1000

unfoldable pub build_port_security_flows : String → String → List Flow
build_port_security_flows tap mac =
    let c = cookie_for tap in
    record {
      cookie = c;
      table = 0;
      priority = 1200;
      fields = in_port tap ∷ dl_src mac ∷ keyword arp ∷ arp_sha mac ∷ [];
      action = normal;
    }
    ∷ record {
      cookie = c;
      table = 0;
      priority = 1180;
      fields = in_port tap ∷ dl_src mac ∷ [];
      action = normal;
    }
    ∷ record {
      cookie = c;
      table = 0;
      priority = spoof_drop_priority;
      fields = in_port tap ∷ [];
      action = drop;
    }
    ∷ []

abbrev pub flow : String → ℕ → ℕ → List Field → Action → Flow
flow tap table priority fields action = record {
  cookie = cookie_for tap;
  table = table;
  priority = priority;
  fields = fields;
  action = action;
}

-- The body of the loop over the two directions of table 0.
abbrev pub essentials : String → List Field → List Field → List Flow
essentials tap dir_match arp_extra =
    let ct = conntrack result_table (zone_for tap) in
    flow tap 0 1100 (dir_match ++ keyword arp ∷ arp_extra) normal
    ∷ flow tap 0 1085 (dir_match ++ keyword icmp6 ∷ []) normal
    ∷ flow tap 0 1080 (dir_match ++ keyword ip ∷ []) ct
    ∷ flow tap 0 1080 (dir_match ++ keyword ipv6 ∷ []) ct
    ∷ []

abbrev pub fresh : String → List Field
fresh tap = ct_zone (zone_for tap) ∷ ct_state new ∷ []

abbrev pub from_guest : String → String → List Field
from_guest tap mac = in_port tap ∷ dl_src mac ∷ []

-- The loop over the rules of one direction.
unfoldable pub rule_flows : String → ℕ → List Field → Dir → List SecRule → List Flow
rule_flows tap priority ends dir [] = []
rule_flows tap priority ends dir (r ∷ rs) =
    map
      (λ m. flow tap result_table priority (fresh tap ++ ends ++ m) (commit_normal (zone_for tap)))
      (rule_matches r dir)
    ++ rule_flows tap priority ends dir rs

unfoldable pub egress_flows : String → String → Policy → List Flow
egress_flows tap mac policy =
    let ends = from_guest tap mac in
    let commit = commit_normal (zone_for tap) in
    if policy.egress_default_deny
    then rule_flows tap 90 ends from_nic policy.egress
      ++ flow tap result_table 20 (fresh tap ++ ends) drop ∷ []
    else flow tap result_table 90 (fresh tap ++ ends ++ keyword ip ∷ []) commit
      ∷ flow tap result_table 90 (fresh tap ++ ends ++ keyword ipv6 ∷ []) commit
      ∷ []

abbrev pub stateful_flows : String → List Flow
stateful_flows tap =
    let zone = ct_zone (zone_for tap) in
    flow tap result_table 100 (zone ∷ ct_state est ∷ []) normal
    ∷ flow tap result_table 100 (zone ∷ ct_state rel ∷ []) normal
    ∷ flow tap result_table 100 (zone ∷ ct_state inv ∷ []) drop
    ∷ []

abbrev pub table_0_flows : String → String → List Flow
table_0_flows tap mac =
    essentials tap (from_guest tap mac) (arp_sha mac ∷ [])
    ++ essentials tap (dl_dst mac ∷ []) []
    ++ flow tap 0 1090 (from_guest tap mac ++ keyword udp ∷ tp_src 68 ∷ tp_dst 67 ∷ []) normal
      ∷ flow tap 0 1090 (dl_dst mac ∷ keyword udp ∷ tp_src 67 ∷ tp_dst 68 ∷ []) normal
      ∷ []

abbrev pub last_flows : String → String → List Flow
last_flows tap mac =
    flow tap result_table 10 (fresh tap ++ dl_dst mac ∷ []) drop
    ∷ flow tap 0 spoof_drop_priority (in_port tap ∷ []) drop
    ∷ []

unfoldable pub build_flows : String → String → Policy → List Flow
build_flows tap mac policy =
    table_0_flows tap mac
    ++ stateful_flows tap
    ++ egress_flows tap mac policy
    ++ rule_flows tap 80 (dl_dst mac ∷ []) to_nic policy.ingress
    ++ last_flows tap mac
