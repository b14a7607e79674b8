-- ===== src/Segments.antt =====
-- services/control/src/segments.rs, with `NetworkKind` and `SegmentKey` of
-- crates/model/src/network.rs: which VXLAN identifiers are in use. A statement of the source is one
-- function on the rows of `network_segments`; times are microseconds. The `segment_key` column is
-- the key itself, in place of its text.
pub mod Lowest
pub mod Quarantine
pub mod Table
use vquasar.Base.{
  ℕ, zero, suc, ◌+◌, ◌-◌, ◌%◌, ◌^◌, ◌≤◌, String, Bool, true, false, Option, none, some, List, [],
  ◌∷◌, not, ◌&&◌, ◌||◌, ◌==◌, leb, ltb, if◌then◌else◌, any, elem, keep, map, str_eq, opt_eq, length,
  is_some,
}
use vquasar.Base.Result.{Result, ok, err}

pub data SegmentKey : Type 0 where
  physical : (physical_network : String) (vlan : Option ℕ) → SegmentKey
  vxlan : (vni : ℕ) → SegmentKey

abbrev pub key_eq : SegmentKey → SegmentKey → Bool
key_eq (physical p v) (physical q w) = str_eq p q && opt_eq v w
key_eq (vxlan v) (vxlan w) = v == w
key_eq _ _ = false

pub data SegmentKind : Type 0 where
  vxlan_kind vlan_kind : SegmentKind

pub data SegmentState : Type 0 where
  allocated quarantined free : SegmentState

pub record Segment : Type 0 where
  pub segment_key : SegmentKey
  pub kind : SegmentKind
  pub value : ℕ
  pub state : SegmentState
  pub network_id : Option ℕ
  pub released_at : Option ℕ

pub data SegmentError : Type 0 where
  exhausted : (start end : ℕ) → SegmentError
  db : SegmentError

pub record SegmentPolicy : Type 0 where
  pub vni_start : ℕ
  pub vni_end : ℕ
  pub quarantine : ℕ

abbrev pub default_policy : SegmentPolicy
default_policy = record { vni_start = 4096; vni_end = 16777215; quarantine = 3600000000 }

abbrev pub is_vxlan : SegmentKind → Bool
is_vxlan vxlan_kind = true
is_vxlan vlan_kind = false

abbrev pub is_free : SegmentState → Bool
is_free free = true
is_free allocated = false
is_free quarantined = false

abbrev pub is_quarantined : SegmentState → Bool
is_quarantined quarantined = true
is_quarantined allocated = false
is_quarantined free = false

-- `ORDER BY value`.
unfoldable pub insert : ℕ → List ℕ → List ℕ
insert a [] = a ∷ []
insert a (x ∷ xs) = if leb a x then a ∷ x ∷ xs else x ∷ insert a xs

unfoldable pub order_by_value : List ℕ → List ℕ
unfolding insert
order_by_value [] = []
order_by_value (x ∷ xs) = insert x (order_by_value xs)

-- `WHERE kind = 'vxlan' AND state <> 'free'`.
abbrev pub is_recorded : Segment → Bool
is_recorded s = is_vxlan s.kind && not (is_free s.state)

unfoldable pub taken_values : List Segment → List ℕ
unfolding order_by_value
taken_values table = order_by_value (map (λ (s : Segment). s.value) (keep is_recorded table))

-- The loop over the taken values, in their order.
unfoldable pub pick : ℕ → List ℕ → ℕ
pick next [] = next
pick next (v ∷ vs) =
    let skip = pick next vs in
    let bump = pick ((next + 1) % 2 ^ 32) vs in
    if ltb v next then skip else if v == next then bump else next

-- The constraints of the table: the primary key, and `UNIQUE (kind, value)`.
abbrev pub violates : SegmentKey → ℕ → Segment → Bool
violates key value s = key_eq key s.segment_key || (is_vxlan s.kind && (value == s.value))

unfoldable pub insert_segment : ℕ → List Segment → Result SegmentError (List Segment)
insert_segment vni table =
    if any (violates (vxlan vni) vni) table
    then err db
    else ok (
        record {
          segment_key = vxlan vni;
          kind = vxlan_kind;
          value = vni;
          state = allocated;
          network_id = none;
          released_at = none;
        }
        ∷ table)

abbrev pub with_key :
    ℕ → Result SegmentError (List Segment) → Result SegmentError (SegmentKey × List Segment)
with_key vni (ok table) = ok (vxlan vni, table)
with_key vni (err e) = err e

unfoldable pub allocate_vxlan :
    SegmentPolicy → List Segment → Result SegmentError (SegmentKey × List Segment)
allocate_vxlan policy table =
    let next = pick policy.vni_start (taken_values table) in
    if ltb policy.vni_end next
    then err (exhausted policy.vni_start policy.vni_end)
    else with_key next (insert_segment next table)

abbrev pub update_key : SegmentKey → (Segment → Segment) → List Segment → List Segment
update_key key f = map (λ (s : Segment). if key_eq s.segment_key key then f s else s)

unfoldable pub bind : SegmentKey → ℕ → List Segment → List Segment
bind key network = update_key key (λ s. record s { network_id = some network })

unfoldable pub release : SegmentKey → ℕ → List Segment → List Segment
release key now =
    update_key key
      (λ s. record s { state = quarantined; released_at = some now; network_id = none })

-- A host as the sweep reads it: the VNIs that it last reported.
abbrev pub HostReport : Type 0
HostReport = List ℕ

abbrev before : Option ℕ → ℕ → Bool
before none cutoff = false
before (some t) cutoff = ltb t cutoff

abbrev pub is_swept : ℕ → List HostReport → Segment → Bool
is_swept cutoff hosts s =
    is_quarantined s.state && (before s.released_at cutoff && not (any (elem s.value) hosts))

-- `Duration::from_std` of chrono fails for a duration that it cannot hold; an hour stands in for it.
abbrev pub cutoff_of : (ℕ → Option ℕ) → SegmentPolicy → ℕ → ℕ
cutoff_of from_std policy now =
    now - elim (from_std policy.quarantine) [ some d ↦ d | none ↦ 3600000000 ]

-- The remaining rows and the number that was freed.
unfoldable pub sweep_quarantine :
    (ℕ → Option ℕ) → SegmentPolicy → ℕ → List HostReport → List Segment → List Segment × ℕ
sweep_quarantine from_std policy now hosts table =
    let swept = is_swept (cutoff_of from_std policy now) hosts in
    (keep (λ s. not (swept s)) table, length (keep swept table))

pub data NetworkKind : Type 0 where
  provider vlan tenant : NetworkKind

unfoldable pub is_physical : NetworkKind → Bool
is_physical provider = true
is_physical vlan = true
is_physical tenant = false

unfoldable pub kind_name : NetworkKind → String
kind_name provider = "provider"
kind_name vlan = "vlan"
kind_name tenant = "tenant"

unfoldable pub kind_from_str : String → Result String NetworkKind
kind_from_str s =
    if str_eq s "provider"
    then ok provider
    else if str_eq s "vlan"
    then ok vlan
    else if str_eq s "tenant"
    then ok tenant
    else err s
