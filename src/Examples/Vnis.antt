-- ===== src/Examples/Vnis.antt =====
-- The table of segments with one row that is allocated and one in quarantine.
use vquasar.Segments.Lowest.{new_row, records, allocate_vxlan_lowest}
use vquasar.Segments.Table.{IsTable, apply-IsTable, quarantined_not_allocated}
use vquasar.Base.{
  refl, none, some, [], ◌∷◌, All, List, ℕ, Option, ◌≡◌, false, ◌≤◌, ◌<◌, true, ◌⊎◌, arith, inl, inr,
  ◌≢◌,
}
use vquasar.Base.Result.{ok, err}
use vquasar.Segments.{
  allocated, vxlan, exhausted, SegmentPolicy, Segment, allocate_vxlan, vxlan_kind, quarantined,
  insert_segment, pick, taken_values, order_by_value, insert, sweep_quarantine,
}
use vquasar.Segments.Quarantine.{apply, Op, Respects, allocate, apply_all, sweep_at}

abbrev policy : SegmentPolicy
policy = record { vni_start = 10; vni_end = 20; quarantine = 100 }

abbrev std : ℕ → Option ℕ
std n = some n

abbrev table : List Segment
table =
    record {
      segment_key = vxlan 10;
      kind = vxlan_kind;
      value = 10;
      state = allocated;
      network_id = some 3;
      released_at = none;
    }
    ∷ record {
      segment_key = vxlan 11;
      kind = vxlan_kind;
      value = 11;
      state = quarantined;
      network_id = none;
      released_at = some 1000;
    }
    ∷ []

table-IsTable : IsTable table
table-IsTable = record {
  rows = ((omega arith, refl, refl), ((omega arith, refl, refl), tt));
  distinct = (refl, (refl, tt));
}

abbrev ops : List Op
ops = sweep_at 1050 [] ∷ allocate ∷ sweep_at 1500 ((11 ∷ []) ∷ []) ∷ []

allocate_vxlan_lowest_example :
    ((n : ℕ) × (allocate_vxlan policy table ≡ ok (vxlan n, new_row n ∷ table))
      × (records n table ≡ false)
      × (10 ≤ n)
      × (n ≤ 20)
      × ((m : ℕ) → 10 ≤ m → m < n → records m table ≡ true))
    ⊎ ((allocate_vxlan policy table ≡ err (exhausted 10 20))
        × ((m : ℕ) → 10 ≤ m → m ≤ 20 → records m table ≡ true))
allocate_vxlan_lowest_example = allocate_vxlan_lowest policy table table-IsTable.rows

apply-IsTable_example : IsTable (apply std policy allocate table)
apply-IsTable_example = apply-IsTable std policy (omega arith) allocate table table-IsTable

ops-Respects : All (Respects 11 1000 std policy) ops
ops-Respects = (inl (omega arith), (tt, (inr refl, tt)))

abbrev vni : ℕ
vni = 13

abbrev rows : List Segment
rows = new_row 13 ∷ apply_all std policy ops table

-- After the three statements, VNI 11 is still not the one that is allocated.
quarantined_not_allocated_example : vni ≢ 11
unfolding allocate_vxlan insert_segment pick taken_values order_by_value insert sweep_quarantine
    apply apply_all
quarantined_not_allocated_example =
    quarantined_not_allocated std policy (omega arith) 11 1000 ops table 13 rows table-IsTable refl
      ops-Respects refl
