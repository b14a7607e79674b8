-- ===== src/Segments/Quarantine.antt =====
-- Runs of the statements on `network_segments`, and the rows that they keep.
use vquasar.Segments.Lowest.{records}
use vquasar.Base.Result.{Result, ok, err}
use vquasar.Segments.{
  SegmentKey, Segment, HostReport, SegmentPolicy, Result, SegmentState, allocate_vxlan,
  SegmentError, bind, release, sweep_quarantine, is_vxlan, allocated, free, quarantined, is_swept,
  cutoff_of, insert_segment, update_key,
}
use vquasar.Base.{
  [], ◌∷◌, ℕ, List, Option, Bool, true, false, some, any, leb, ◌≡◌, ◌≤◌, arith, keep, map, ◌&&◌,
  ◌⊎◌, elem, ◌==◌, not, none, inl, inr, All,
}

-- The statements that change the table, in any order. A time is that of the statement.
pub data Op : Type 0 where
  allocate : Op
  bind_to : SegmentKey → ℕ → Op
  release_at : SegmentKey → ℕ → Op
  sweep_at : ℕ → List HostReport → Op

module _ (from_std : ℕ → Option ℕ) (policy : SegmentPolicy) where
  abbrev table_of : List Segment → Result SegmentError (SegmentKey × List Segment) → List Segment
  table_of table (ok (key, table')) = table'
  table_of table (err e) = table

  -- A failed allocation rolls its transaction back.
  unfoldable pub apply : Op → List Segment → List Segment
  apply allocate table = table_of table (allocate_vxlan policy table)
  apply (bind_to key network) table = bind key network table
  apply (release_at key now) table = release key now table
  apply (sweep_at now hosts) table = (sweep_quarantine from_std policy now hosts table).0

  unfoldable pub apply_all : List Op → List Segment → List Segment
  apply_all [] table = table
  apply_all (op ∷ ops) table = apply_all ops (apply op table)

abbrev held_since : ℕ → SegmentState → Option ℕ → Bool
held_since t allocated r = true
held_since t free r = false
held_since t quarantined none = true
held_since t quarantined (some r) = leb t r

-- A row that records the VNI, and that was not released before the time.
abbrev pub holds : ℕ → ℕ → Segment → Bool
holds v t s = is_vxlan s.kind && ((v == s.value) && held_since t s.state s.released_at)

abbrev pub Held : ℕ → ℕ → List Segment → Type 0
Held v t table = any (holds v t) table ≡ true

module _ {A : Type 0} (p : A → Bool) where
  any-map :
      (f : A → A) (xs : List A)
      → ((a : A) → p a ≡ true → p (f a) ≡ true)
      → any p xs ≡ true
      → any p (map f xs) ≡ true
  any-map f [] k h = h
  any-map f (x ∷ xs) k h = ground (arith, k x, any-map f xs k)

  any-keep :
      (q : A → Bool) (xs : List A)
      → ((a : A) → p a ≡ true → q a ≡ true)
      → any p xs ≡ true
      → any p (keep q xs) ≡ true
  any-keep q [] k h = h
  any-keep q (x ∷ xs) k h = ground (arith, k x, any-keep q xs k)

module _ (v t : ℕ) where
  holds-not-swept :
      (cutoff : ℕ) (hosts : List HostReport) (s : Segment)
      → (cutoff ≤ t) ⊎ (any (elem v) hosts ≡ true)
      → holds v t s ≡ true
      → not (is_swept cutoff hosts s) ≡ true
  holds-not-swept cutoff hosts s (inl early) h = ground arith
  holds-not-swept cutoff hosts s (inr carried) h =
      let same : v ≡ s.value = ground arith in
      let carried' : any (elem s.value) hosts ≡ true = rw (← same) carried in
      rw carried' (ground arith)

  holds-record : (s : Segment) → holds v t s ≡ true → (is_vxlan s.kind && (v == s.value)) ≡ true
  holds-record s h = ground arith

  pub Held-records : (table : List Segment) → Held v t table → records v table ≡ true
  Held-records [] h = h
  Held-records (s ∷ table) h = ground (arith, Held-records table, holds-record s)

  -- What the environment does while the VNI is held back: no clock runs backwards, and each sweep comes
  -- before the quarantine is over or finds a host that carries the VNI.
  abbrev pub Respects : (ℕ → Option ℕ) → SegmentPolicy → Op → Type 0
  Respects from_std policy allocate = Unit
  Respects from_std policy (bind_to key network) = Unit
  Respects from_std policy (release_at key now) = t ≤ now
  Respects from_std policy (sweep_at now hosts) =
      (cutoff_of from_std policy now ≤ t) ⊎ (any (elem v) hosts ≡ true)

module _ (from_std : ℕ → Option ℕ) (policy : SegmentPolicy) (v t : ℕ) where
  allocate-Held :
      (table : List Segment) → Held v t table → Held v t (apply from_std policy allocate table)
  unfolding apply allocate_vxlan insert_segment
  allocate-Held table h = ground arith

  update-Held :
      (key : SegmentKey) (f : Segment → Segment) (table : List Segment)
      → ((s : Segment) → holds v t s ≡ true → holds v t (f s) ≡ true)
      → Held v t table
      → Held v t (update_key key f table)
  update-Held key f table k h = any-map (holds v t) _ table (λ s e. ground (arith, k s)) h

  apply-Held :
      (op : Op) (table : List Segment)
      → Respects v t from_std policy op
      → Held v t table
      → Held v t (apply from_std policy op table)
  unfolding apply bind release sweep_quarantine
  apply-Held allocate table r h = allocate-Held table h
  apply-Held (bind_to key network) table r h = update-Held key _ table (λ s e. e) h
  apply-Held (release_at key now) table r h = update-Held key _ table (λ s e. ground arith) h
  apply-Held (sweep_at now hosts) table r h =
      any-keep (holds v t) _ table
        (λ s e. holds-not-swept v t (cutoff_of from_std policy now) hosts s r e) h

  -- From a table with a row for the VNI that was not released before `t`, after any statements of which
  -- no release is timed before `t` and each sweep comes within the quarantine or finds a host that
  -- carries the VNI, the VNI is still recorded.
  pub apply_all-Held :
      (ops : List Op) (table : List Segment)
      → All (Respects v t from_std policy) ops
      → Held v t table
      → Held v t (apply_all from_std policy ops table)
  unfolding apply_all
  apply_all-Held [] table r h = h
  apply_all-Held (op ∷ ops) table r h =
      apply_all-Held ops (apply from_std policy op table) r.1 (apply-Held op table r.0 h)
