-- ===== src/Segments/Table.antt =====
-- The invariant of `network_segments`, and what follows for a released VNI.
use vquasar.Base.Result.{ok, Result}
use vquasar.Segments.Lowest.{records, IsRow, allocate_vxlan_lowest}
use vquasar.Base.{
  [], ◌∷◌, refl, List, ℕ, All, Bool, Option, map, ◌≡◌, false, keep, ◌&&◌, Bool-cases, arith, ◌<◌,
  inl, inr, ◌≢◌, if◌then◌else◌, sym, ◌∙◌,
}
use vquasar.Segments.Quarantine.{
  Op, allocate, bind_to, release_at, sweep_at, Held, apply, apply_all, Respects, Held-records,
  apply_all-Held,
}
use vquasar.Segments.{
  vxlan, Segment, SegmentKey, is_vxlan, update_key, SegmentPolicy, is_free, bind, allocate_vxlan,
  release, ok, sweep_quarantine, SegmentError, key_eq,
}

-- No VNI has two rows.
abbrev pub IsDistinct : List Segment → Type 0
IsDistinct [] = Unit
IsDistinct (s ∷ table) = ((is_vxlan s.kind && records s.value table) ≡ false) × IsDistinct table

pub record IsTable (table : List Segment) : Type 0 where
  pub rows : All IsRow table
  pub distinct : IsDistinct table

module _ (q : Segment → Bool) where
  All-keep : (P : Segment → Type 0) (table : List Segment) → All P table → All P (keep q table)
  All-keep P [] h = h
  All-keep P (s ∷ table) h = elim (Bool-cases (q s)) [
    | inl e ↦ rw e (h.0, All-keep P table h.1)
    | inr e ↦ rw e (All-keep P table h.1)
  ]

  records-keep :
      (v : ℕ) (table : List Segment) → records v table ≡ false → records v (keep q table) ≡ false
  records-keep v [] h = h
  records-keep v (s ∷ table) h = ground (arith, records-keep v table)

  keep-IsDistinct : (table : List Segment) → IsDistinct table → IsDistinct (keep q table)
  keep-IsDistinct [] h = h
  keep-IsDistinct (s ∷ table) h = elim (Bool-cases (q s)) [
    | inl e ↦ rw e (ground (arith, records-keep s.value table), keep-IsDistinct table h.1)
    | inr e ↦ rw e (keep-IsDistinct table h.1)
  ]

-- A change that leaves a row's kind, value and key, and frees no VNI.
abbrev Same : Segment → Segment → Type 0
Same s s' =
    (s'.kind ≡ s.kind)
    × (s'.value ≡ s.value)
    × (s'.segment_key ≡ s.segment_key)
    × (is_free s.state ≡ false → is_free s'.state ≡ false)

module _ (f : Segment → Segment) (same : (s : Segment) → Same s (f s)) where
  map-IsRow : (table : List Segment) → All IsRow table → All IsRow (map f table)
  map-IsRow [] h = h
  map-IsRow (s ∷ table) h =
      let (k, v, key, live) = same s in
      ((rw v h.0.0, live h.0.1, rw (k, v, key) h.0.2), map-IsRow table h.1)

  records-map : (v : ℕ) (table : List Segment) → records v (map f table) ≡ records v table
  records-map v [] = refl
  records-map v (s ∷ table) = let (k, w, key, live) = same s in rw (k, w, records-map v table) refl

  map-IsDistinct : (table : List Segment) → IsDistinct table → IsDistinct (map f table)
  map-IsDistinct [] h = h
  map-IsDistinct (s ∷ table) h =
      let (k, w, key, live) = same s in
      (rw (k, w, records-map s.value table) h.0, map-IsDistinct table h.1)

update-IsTable :
    (key : SegmentKey) (f : Segment → Segment) (table : List Segment)
    → ((s : Segment) → Same s (f s))
    → IsTable table
    → IsTable (update_key key f table)
update-IsTable key f table same h = record {
  rows = map-IsRow _ (λ s. branch s) table h.rows;
  distinct = map-IsDistinct _ (λ s. branch s) table h.distinct;
}
  where
    branch : (s : Segment) → Same s (if key_eq s.segment_key key then f s else s)
    branch s = elim (Bool-cases (key_eq s.segment_key key)) [
      | inl e ↦ rw e (same s)
      | inr e ↦ rw e (refl, refl, refl, λ l. l)
    ]

same_vni :
    (n m : ℕ) {rows rows' : List Segment}
    → ◌≡◌ {A = Result SegmentError (SegmentKey × List Segment)}
        (ok (vxlan n, rows))
        (ok (vxlan m, rows'))
    → n ≡ m
same_vni n m h = ground arith

module _ (from_std : ℕ → Option ℕ) (policy : SegmentPolicy)
    (narrow : policy.vni_end < 2147483648) where
  allocate-IsTable :
      (table : List Segment) → IsTable table → IsTable (apply from_std policy allocate table)
  unfolding apply
  allocate-IsTable table h = elim (allocate_vxlan_lowest policy table h.rows) [
    | inl (n, e, out, le, top, below) ↦
        rw e (record { rows = ((omega arith, refl, refl), h.rows); distinct = (out, h.distinct) })
    | inr (e, all_held) ↦ rw e h
  ]

  -- If the range ends below 2 ^ 31, every statement keeps the table's invariant: proper rows, and no VNI
  -- with two of them.
  pub apply-IsTable :
      (op : Op) (table : List Segment) → IsTable table → IsTable (apply from_std policy op table)
  unfolding apply bind release sweep_quarantine
  apply-IsTable allocate table h = allocate-IsTable table h
  apply-IsTable (bind_to key network) table h =
      update-IsTable key _ table (λ s. (refl, refl, refl, λ l. l)) h
  apply-IsTable (release_at key now) table h =
      update-IsTable key _ table (λ s. (refl, refl, refl, λ l. refl)) h
  apply-IsTable (sweep_at now hosts) table h = record {
    rows = All-keep _ IsRow table h.rows;
    distinct = keep-IsDistinct _ table h.distinct;
  }

  apply_all-IsTable :
      (ops : List Op) (table : List Segment)
      → IsTable table
      → IsTable (apply_all from_std policy ops table)
  unfolding apply_all
  apply_all-IsTable [] table h = h
  apply_all-IsTable (op ∷ ops) table h =
      apply_all-IsTable ops (apply from_std policy op table) (apply-IsTable op table h)

  -- A VNI that a row records, live or released at `t` or later, is not allocated after any statements of
  -- which no release is timed before `t`, and each sweep comes within the quarantine of `t` or finds a
  -- host that carries the VNI. The range ends below 2 ^ 31.
  pub quarantined_not_allocated :
      (v t : ℕ) (ops : List Op) (table : List Segment) (n : ℕ) (rows : List Segment)
      → IsTable table
      → Held v t table
      → All (Respects v t from_std policy) ops
      → allocate_vxlan policy (apply_all from_std policy ops table) ≡ ok (vxlan n, rows)
      → n ≢ v
  quarantined_not_allocated v t ops table n rows h held r e same =
      let after = apply_all-IsTable ops table h in
      let kept =
        Held-records v t (apply_all from_std policy ops table)
          (apply_all-Held from_std policy v t ops table r held) in
      elim (allocate_vxlan_lowest policy _ after.rows) [
        | inl (m, q, out, le, top, below) ↦ cc (same_vni n m (sym e ∙ q))
        | inr (q, all_held) ↦ cc
      ]
