-- ===== src/Segments/Lowest.antt =====
-- The VNI that `allocate_vxlan` takes.
use vquasar.Base.Result.{ok, err}
use vquasar.Segments.{
  exhausted, physical, vlan_kind, SegmentKind, SegmentKey, insert, order_by_value, pick, Segment,
  taken_values, is_free, is_vxlan, is_recorded, vxlan, allocate_vxlan, violates, vxlan_kind,
  allocated, insert_segment, SegmentPolicy, ok, exhausted,
}
use vquasar.Base.{
  ◌∷◌, [], refl, List, ℕ, All, Bool-cases, elem, leb, ◌≡◌, ◌≤◌, arith, inl, ◌==◌, inr, leb→le, ◌||◌,
  All-mono, suc, ◌<◌, false, true, ltb, ◌+◌, Bool, map, ◌%◌, any, keep, ◌^◌, ◌&&◌, ◌∙◌, subst, sym,
  none, ◌⊎◌,
}

-- Each item is at most the later ones.
abbrev pub IsSorted : List ℕ → Type 0
IsSorted [] = Unit
IsSorted (x ∷ xs) = All (λ y. x ≤ y) xs × IsSorted xs

elem-insert : (a b : ℕ) (xs : List ℕ) → elem a (insert b xs) ≡ (a == b) || elem a xs
unfolding insert
elem-insert a b [] = refl
elem-insert a b (x ∷ xs) = ground (arith, elem-insert a b xs)

elem-order_by_value : (a : ℕ) (xs : List ℕ) → elem a (order_by_value xs) ≡ elem a xs
unfolding order_by_value
elem-order_by_value a [] = refl
elem-order_by_value a (x ∷ xs) =
    ground (arith, elem-insert a x (order_by_value xs), elem-order_by_value a xs)

All-insert : (P : ℕ → Type 0) (b : ℕ) (xs : List ℕ) → P b → All P xs → All P (insert b xs)
unfolding insert
All-insert P b [] p h = (p, tt)
All-insert P b (x ∷ xs) p h = elim (Bool-cases (leb b x)) [
  | inl e ↦ rw e (p, h)
  | inr e ↦ rw e (h.0, All-insert P b xs p h.1)
]

insert-IsSorted : (b : ℕ) (xs : List ℕ) → IsSorted xs → IsSorted (insert b xs)
unfolding insert
insert-IsSorted b [] h = (tt, tt)
insert-IsSorted b (x ∷ xs) h = elim (Bool-cases (leb b x)) [
  | inl e ↦ rw e ((leb→le b x e, All-mono xs (λ y le. omega (arith, leb→le b x e)) h.0), h)
  | inr e ↦ rw e (All-insert (λ y. x ≤ y) b xs (ground arith) h.0, insert-IsSorted b xs h.1)
]

order_by_value-IsSorted : (xs : List ℕ) → IsSorted (order_by_value xs)
unfolding order_by_value
order_by_value-IsSorted [] = tt
order_by_value-IsSorted (x ∷ xs) =
    insert-IsSorted x (order_by_value xs) (order_by_value-IsSorted xs)

All-order_by_value : (P : ℕ → Type 0) (xs : List ℕ) → All P xs → All P (order_by_value xs)
unfolding order_by_value
All-order_by_value P [] h = tt
All-order_by_value P (x ∷ xs) h =
    All-insert P x (order_by_value xs) h.0 (All-order_by_value P xs h.1)

-- Above every item of a list that is at least `next`, and that starts above `a`, there is no `a`.
not-elem-above : (a : ℕ) (xs : List ℕ) → All (λ y. suc a ≤ y) xs → elem a xs ≡ false
not-elem-above a [] h = refl
not-elem-above a (x ∷ xs) h = ground (arith, not-elem-above a xs h.1)

abbrev Small : ℕ → Type 0
Small v = v < 2147483648

pick_skip : (next v : ℕ) (vs : List ℕ) → v < next → pick next (v ∷ vs) ≡ pick next vs
unfolding pick
pick_skip next v vs h = ground arith

pick_bump :
    (next v : ℕ) (vs : List ℕ) → v ≡ next → Small v → pick next (v ∷ vs) ≡ pick (next + 1) vs
unfolding pick
pick_bump next v vs h small =
    let fits : (next + 1) % 2 ^ 32 ≡ next + 1 = omega arith in rw fits (ground arith)

pick_gap : (next v : ℕ) (vs : List ℕ) → next < v → pick next (v ∷ vs) ≡ next
unfolding pick
pick_gap next v vs h = ground arith

-- `n` is the lowest number from `next` on that is not among the values.
abbrev pub IsLowestIn : ℕ → List ℕ → ℕ → Type 0
IsLowestIn next vs n =
    (elem n vs ≡ false) × (next ≤ n) × ((m : ℕ) → next ≤ m → m < n → elem m vs ≡ true)

skip-IsLowestIn :
    (next v : ℕ) (vs : List ℕ) (n : ℕ)
    → v < next
    → IsLowestIn next vs n
    → IsLowestIn next (v ∷ vs) n
skip-IsLowestIn next v vs n lt (out, le, below) =
    (ground arith, le, λ m p q. ground (arith, below m p q))

bump-IsLowestIn :
    (next v : ℕ) (vs : List ℕ) (n : ℕ)
    → v ≡ next
    → IsLowestIn (next + 1) vs n
    → IsLowestIn next (v ∷ vs) n
bump-IsLowestIn next v vs n e (out, le, below) =
    (ground arith, omega arith, λ m p q. ground (arith, below m))

gap-IsLowestIn :
    (next v : ℕ) (vs : List ℕ) → next < v → IsSorted (v ∷ vs) → IsLowestIn next (v ∷ vs) next
gap-IsLowestIn next v vs lt s = (
  not-elem-above next (v ∷ vs) (lt, All-mono vs (λ y le. omega arith) s.0),
  omega arith,
  λ m p q. absurd (omega arith),
)

-- The walk over the sorted values ends at the lowest number that is not among them.
pick_lowest :
    (next : ℕ) (vs : List ℕ) → IsSorted vs → All Small vs → IsLowestIn next vs (pick next vs)
pick_lowest next [] s h = (unfold pick in (refl, omega arith, λ m p q. absurd (omega arith)))
pick_lowest next (v ∷ vs) s h = elim (Bool-cases (ltb v next)) [
  | inl e ↦
      let lt : v < next = ground arith in
      subst (IsLowestIn next (v ∷ vs)) (sym (pick_skip next v vs lt))
        (skip-IsLowestIn next v vs _ lt (pick_lowest next vs s.1 h.1))
  | inr e ↦ elim (Bool-cases (v == next)) [
    | inl q ↦
        let same : v ≡ next = ground arith in
        subst (IsLowestIn next (v ∷ vs)) (sym (pick_bump next v vs same h.0))
          (bump-IsLowestIn next v vs _ same (pick_lowest (next + 1) vs s.1 h.1))
    | inr q ↦
        let lt : next < v = ground arith in
        subst (IsLowestIn next (v ∷ vs)) (sym (pick_gap next v vs lt))
          (gap-IsLowestIn next v vs lt s)
  ]
]

-- The key of a row names its kind and its value.
abbrev pub IsKeyOf : SegmentKind → ℕ → SegmentKey → Type 0
IsKeyOf vxlan_kind v key = key ≡ vxlan v
IsKeyOf vlan_kind v (physical p w) = Unit
IsKeyOf vlan_kind v (vxlan w) = ⊥

-- The rows that hold a VNI, as the allocator reads them: none is 'free', and each value is a positive
-- `INTEGER` and names its key.
abbrev pub IsRow : Segment → Type 0
IsRow s = (s.value < 2147483648) × (is_free s.state ≡ false) × IsKeyOf s.kind s.value s.segment_key

-- Whether some row records the VNI.
abbrev pub records : ℕ → List Segment → Bool
records v table = any (λ s. is_vxlan s.kind && (v == s.value)) table

elem-taken_values :
    (v : ℕ) (table : List Segment) → All IsRow table → elem v (taken_values table) ≡ records v table
unfolding taken_values
elem-taken_values v table h = elem-order_by_value v _ ∙ go table h
  where
    go :
        (t : List Segment)
        → All IsRow t
        → elem v (map (λ (s : Segment). s.value) (keep is_recorded t)) ≡ records v t
    go [] h = refl
    go (s ∷ t) h = ground (arith, go t h.1)

All-values : (table : List Segment) → All IsRow table → All Small (taken_values table)
unfolding taken_values
All-values table h = All-order_by_value Small _ (go table h)
  where
    go :
        (t : List Segment)
        → All IsRow t
        → All Small (map (λ (s : Segment). s.value) (keep is_recorded t))
    go [] h = tt
    go (s ∷ t) h = elim (Bool-cases (is_recorded s)) [
      | inl e ↦ rw e (h.0.0, go t h.1)
      | inr e ↦ rw e (go t h.1)
    ]

taken_values-IsSorted : (table : List Segment) → IsSorted (taken_values table)
unfolding taken_values
taken_values-IsSorted table =
    order_by_value-IsSorted (map (λ (s : Segment). s.value) (keep is_recorded table))

-- `pick` on the table's values, in terms of its rows.
pick-table :
    (start : ℕ) (table : List Segment)
    → All IsRow table
    → let n = pick start (taken_values table) in
      (records n table ≡ false)
      × (start ≤ n)
      × ((m : ℕ) → start ≤ m → m < n → records m table ≡ true)
pick-table start table h =
    let values = taken_values table in
    let sorted : IsSorted values = taken_values-IsSorted table in
    let (out, le, below) = pick_lowest start values sorted (All-values table h) in
    (
      sym (elem-taken_values _ table h) ∙ out,
      le,
      λ m p q. sym (elem-taken_values m table h) ∙ below m p q,
    )

-- Where no row records a VNI, the table's constraints let its row in.
not-violates :
    (n : ℕ) (table : List Segment)
    → All IsRow table
    → records n table ≡ false
    → any (violates (vxlan n) n) table ≡ false
not-violates n [] h e = refl
not-violates n (s ∷ t) h e = ground (arith, not-violates n t h.1)

abbrev pub new_row : ℕ → Segment
new_row n = record {
  segment_key = vxlan n;
  kind = vxlan_kind;
  value = n;
  state = allocated;
  network_id = none;
  released_at = none;
}

-- On a table of proper rows, `allocate_vxlan` returns and records the lowest VNI of the range that no
-- row holds, quarantined ones included, and adds that row alone; or every VNI of the range is held and
-- the error names the range. It never meets a constraint of the table.
pub allocate_vxlan_lowest :
    (policy : SegmentPolicy) (table : List Segment)
    → All IsRow table
    → ((n : ℕ) × (allocate_vxlan policy table ≡ ok (vxlan n, new_row n ∷ table))
        × (records n table ≡ false)
        × (policy.vni_start ≤ n)
        × (n ≤ policy.vni_end)
        × ((m : ℕ) → policy.vni_start ≤ m → m < n → records m table ≡ true))
      ⊎ ((allocate_vxlan policy table ≡ err (exhausted policy.vni_start policy.vni_end))
          × ((m : ℕ) → policy.vni_start ≤ m → m ≤ policy.vni_end → records m table ≡ true))
unfolding allocate_vxlan insert_segment
allocate_vxlan_lowest policy table h =
    let n = pick policy.vni_start (taken_values table) in
    let (out, le, below) = pick-table policy.vni_start table h in
    elim (Bool-cases (ltb policy.vni_end n)) [
      | inl e ↦ inr (rw e, λ m p q. below m p (ground arith))
      | inr e ↦ inl (n, rw (e, not-violates n table h out), out, le, ground arith, below)
    ]
