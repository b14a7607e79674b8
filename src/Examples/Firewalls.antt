-- ===== src/Examples/Firewalls.antt =====
-- A NIC with one rule for ssh, and its neighbour on the bridge.
use vquasar.Firewall.Ports.{port_masks}
use vquasar.Base.Text.{trim, apart}
use vquasar.Firewall.Switch.{Packet}
use vquasar.Firewall.Rules.{permits}
use vquasar.Examples.Switches.{switch, laws, masked, mask_law}
use vquasar.Base.{
  [], ◌∷◌, true, false, refl, String, any, ◌≡◌, ◌++◌, ◌↔◌, inr, ◌≤◌, arith, ◌==◌, Bool, List, keep,
  not, ◌&&◌, str_eq,
}
use vquasar.Firewall.{
  in_port, dl_src, dl_dst, keyword, arp, tcp, arp, drop, normal, Flow, Policy, SecRule, build_flows,
  zone_for, build_port_security_flows, to_nic, Field, flow, dl_dst, keyword, table_0_flows,
}
use vquasar.Firewall.Ports.Cover.{port_masks_cover, matches_port}
use vquasar.Firewall.Spoof.{spoofed_dropped, arp_passes}
use vquasar.Firewall.Install.{clear, apply_firewall, clear-apply_firewall, is_replaced, installed}
use vquasar.Firewall.Decisions.{IsNew}

abbrev pub tap : String
tap = "tap0"

abbrev pub mac : String
mac = "02:00:00:00:00:01"

abbrev pub neighbour : String
neighbour = "02:00:00:00:00:02"

abbrev ssh : SecRule
ssh = record {
  ipv6 = false;
  protocol = "tcp";
  port_min = 22;
  port_max = 22;
  remote_cidr = "10.0.0.7/32";
}

abbrev policy : Policy
policy = record { ingress = ssh ∷ []; egress = []; egress_default_deny = true }

abbrev pub packet_in : Packet
packet_in = record {
  port = "uplink";
  src_mac = "02:00:00:00:00:02";
  dst_mac = mac;
  sender_mac = "";
  kind = tcp;
  src_addr = "10.0.0.7";
  dst_addr = "10.0.0.1";
  src_port = 40000;
  dst_port = 22;
  zone = zone_for tap;
  is_est = false;
  is_rel = false;
  is_inv = false;
  is_new = true;
}

pub in-IsNew : IsNew tap packet_in
in-IsNew = record { zone = refl; is_new = refl; not_est = refl; not_rel = refl; not_inv = refl }

port_masks_cover_example :
    (any (matches_port masked mask_law 1500) (port_masks 1000 2000) ≡ true)
    ↔ ((1000 ≤ 1500) × (1500 ≤ 2000))
port_masks_cover_example = port_masks_cover masked mask_law 1000 2000 1500 (omega arith)

ssh_permitted : any (λ r. permits switch laws to_nic r packet_in) policy.ingress ≡ true
unfolding permits trim
ssh_permitted = refl

abbrev pub packet_out : Packet
packet_out = record {
  port = tap;
  src_mac = mac;
  dst_mac = neighbour;
  sender_mac = "";
  kind = tcp;
  src_addr = "10.0.0.1";
  dst_addr = "10.0.0.7";
  src_port = 40000;
  dst_port = 443;
  zone = zone_for tap;
  is_est = false;
  is_rel = false;
  is_inv = false;
  is_new = true;
}

pub out-IsNew : IsNew tap packet_out
out-IsNew = record { zone = refl; is_new = refl; not_est = refl; not_rel = refl; not_inv = refl }

-- An ARP reply in the name of a third machine.
abbrev spoofed : String → Packet
spoofed target = record {
  port = tap;
  src_mac = "02:00:00:00:00:03";
  dst_mac = target;
  sender_mac = "02:00:00:00:00:03";
  kind = arp;
  src_addr = "";
  dst_addr = "";
  src_port = 0;
  dst_port = 0;
  zone = 0;
  is_est = false;
  is_rel = false;
  is_inv = false;
  is_new = false;
}

abbrev bridge_default : Flow
bridge_default = record { cookie = 0; table = 0; priority = 0; fields = []; action = normal }

spoofed_dropped_example :
    (switch.decide 0 (build_flows tap mac policy ++ bridge_default ∷ []) (spoofed neighbour) ≡ drop)
    × (switch.decide 0
          (build_port_security_flows tap mac ++ bridge_default ∷ [])
          (spoofed neighbour)
        ≡ drop)
spoofed_dropped_example =
    spoofed_dropped switch laws (spoofed neighbour) tap mac refl
      (apart "02:00:00:00:00:03" mac refl) (apart neighbour mac refl) policy (bridge_default ∷ [])
      (inr (inr (omega arith)), tt)

arp_passes_example :
    switch.decide 0
      (build_flows tap mac policy ++ build_flows "tap1" neighbour policy)
      (spoofed neighbour)
    ≡ normal
arp_passes_example =
    arp_passes switch laws (spoofed neighbour) tap mac "tap1" neighbour policy policy refl refl

-- The same match, for the fields of the flows below.
abbrev field_eq : Field → Field → Bool
field_eq (in_port a) (in_port b) = str_eq a b
field_eq (dl_src a) (dl_src b) = str_eq a b
field_eq (dl_dst a) (dl_dst b) = str_eq a b
field_eq (keyword arp) (keyword arp) = true
field_eq _ _ = false

abbrev fields_eq : List Field → List Field → Bool
fields_eq [] [] = true
fields_eq (a ∷ rest) (b ∷ rest') = field_eq a b && fields_eq rest rest'
fields_eq _ _ = false

abbrev same : Flow → Flow → Bool
same f g = (f.table == g.table) && ((f.priority == g.priority) && fields_eq f.fields g.fields)

-- The ARP flow of another NIC, under the same MAC and under another one.
abbrev arp_flow : String → Flow
arp_flow dst = flow "tap1" 0 1100 (dl_dst dst ∷ keyword arp ∷ []) normal

abbrev before_it : List Flow
before_it = arp_flow mac ∷ arp_flow neighbour ∷ bridge_default ∷ []

clear-apply_firewall_example :
    clear tap (apply_firewall same true true tap mac policy before_it)
    ≡ keep
        (λ g. not (is_replaced same (installed true true tap mac policy) g))
        (clear tap before_it)
clear-apply_firewall_example = clear-apply_firewall same true true tap mac policy before_it

the_neighbour_stays :
    keep (λ g. not (is_replaced same (table_0_flows tap mac) g)) before_it
    ≡ arp_flow neighbour ∷ bridge_default ∷ []
the_neighbour_stays = refl
