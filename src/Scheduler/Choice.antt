-- ===== src/Scheduler/Choice.antt =====
-- The hosts that suit a VM, and the filters of `schedule`.
use vquasar.Base.Int.{ℤ, pos, ◌≤ℤ◌, sub_i64, wrap_i64}
use vquasar.Scheduler.{
  HostCommit, Host, pools_of, ℤ, pinned_host, commit_of, can_reach, is_subset, passes_filters,
  with_pool, Unschedulable, has_room, is_reachable, reconcile_hosts, required_host, is_required,
  required_pools, fits, placement_conflict,
}
use vquasar.Model.{VirtualMachineSpec, DiskSpec, size_bytes}
use vquasar.Base.{
  List, ℕ, Bool, Option, elem, Memᴰ, ◌≡◌, some, true, ◌↔◌, ◌∷◌, Bool-cases, [], ◌==◌, inl, ==_iff,
  inr, arith, refl, All, is_empty, none, ◌||◌, ◌&&◌, ◌∙◌, sym,
}
use vquasar.Base.Result.{ok, err, Result}

-- A disk's pool, if it has one, is among those that a host reports.
abbrev pub IsReported : Option (List ℕ) → Option ℕ → Type 0
IsReported r none = Unit
IsReported none (some p) = ⊥
IsReported (some r) (some p) = Memᴰ p r

-- A host that is asked for, if there is one, is this one.
abbrev pub IsNamed : Option ℕ → ℕ → Type 0
IsNamed none id = Unit
IsNamed (some h) id = h ≡ id

-- What the VM boots with is not more than what the host has left of its processors and memory.
abbrev pub HasRoom : VirtualMachineSpec → HostCommit → Option ℤ → Option ℤ → Type 0
HasRoom spec commit none total = ⊥
HasRoom spec commit (some cpus) none = ⊥
HasRoom spec commit (some cpus) (some total) =
    (pos spec.cpu.boot_vcpus ≤ℤ sub_i64 cpus commit.vcpus)
    × (wrap_i64 (pos (size_bytes spec.memory)) ≤ℤ sub_i64 total commit.memory_bytes)

pub record Suits (spec : VirtualMachineSpec) (committed : ℕ → Option HostCommit)
    (pools : ℕ → Option (List ℕ)) (h : Host) : Type 0 where
  pub requested : IsNamed spec.placement.host h.id
  pub pinned : IsNamed (pinned_host spec) h.id
  pub reported : All (λ d. IsReported (pools h.id) d.pool) spec.disks
  pub room : HasRoom spec (commit_of committed h.id) h.logical_cpus h.total_memory_bytes

elem→Memᴰ : (a : ℕ) (xs : List ℕ) → elem a xs ≡ true → Memᴰ a xs
elem→Memᴰ a [] e = cc
elem→Memᴰ a (x ∷ xs) e = elim (Bool-cases (a == x)) [
  | inl here ↦ Memᴰ.head ((==_iff a x).0 here)
  | inr there ↦ Memᴰ.tail (elem→Memᴰ a xs (rw there at e))
]

Memᴰ→elem : (a : ℕ) (xs : List ℕ) → Memᴰ a xs → elem a xs ≡ true
Memᴰ→elem a [] m = elim m [ ]
Memᴰ→elem a (x ∷ xs) (Memᴰ.head e) = rw ((==_iff a x).1 e) (λ i. true)
Memᴰ→elem a (x ∷ xs) (Memᴰ.tail m) = let h = Memᴰ→elem a xs m in ground arith

-- One more disk, in the two cases of what the host reports.
IsReported-iff :
    (r : List ℕ) (o : Option ℕ) (rest : List ℕ)
    → (is_subset (with_pool o rest) r ≡ true) ↔ (IsReported (some r) o × (is_subset rest r ≡ true))
IsReported-iff r none rest = ((λ h. (tt, h)), λ h. h.1)
IsReported-iff r (some p) rest = (
  (λ h. (elem→Memᴰ p r (ground arith), ground arith)),
  λ h. let e = Memᴰ→elem p r h.0 in let t = h.1 in ground arith,
)

subset_iff :
    (ds : List DiskSpec) (r : List ℕ)
    → (is_subset (pools_of ds) r ≡ true) ↔ All (λ d. IsReported (some r) d.pool) ds
subset_iff [] r = ((λ h. tt), λ h. λ i. true)
subset_iff (d ∷ ds) r =
    let step = IsReported-iff r d.pool (pools_of ds) in
    let rest = subset_iff ds r in
    ((λ h. let (a, b) = step.0 h in (a, rest.0 b)), λ h. step.1 (h.0, rest.1 h.1))

no_pool_iff :
    (o : Option ℕ) (rest : List ℕ)
    → (is_empty (with_pool o rest) ≡ true) ↔ (IsReported none o × (is_empty rest ≡ true))
no_pool_iff none rest = ((λ h. (tt, h)), λ h. h.1)
no_pool_iff (some p) rest = ((λ h. cc), λ h. absurd h.0)

no_pools_iff :
    (ds : List DiskSpec) → (is_empty (pools_of ds) ≡ true) ↔ All (λ d. IsReported none d.pool) ds
no_pools_iff [] = ((λ h. tt), λ h. λ i. true)
no_pools_iff (d ∷ ds) =
    let step = no_pool_iff d.pool (pools_of ds) in
    let rest = no_pools_iff ds in
    ((λ h. let (a, b) = step.0 h in (a, rest.0 b)), λ h. step.1 (h.0, rest.1 h.1))

empty-subset : (xs r : List ℕ) → (is_empty xs || is_subset xs r) ≡ is_subset xs r
empty-subset [] r = refl
empty-subset (x ∷ xs) r = refl

pub can_reach_iff :
    (ds : List DiskSpec) (r : Option (List ℕ))
    → (can_reach (pools_of ds) r ≡ true) ↔ All (λ d. IsReported r d.pool) ds
unfolding can_reach
can_reach_iff ds none = no_pools_iff ds
can_reach_iff ds (some r) = rw (empty-subset (pools_of ds) r) (subset_iff ds r)

has_room_iff :
    (spec : VirtualMachineSpec) (commit : HostCommit) (cpus total : Option ℤ)
    → (has_room spec commit cpus total ≡ true) ↔ HasRoom spec commit cpus total
has_room_iff spec commit none total = ((λ h. cc), λ h. absurd h)
has_room_iff spec commit (some c) none = ((λ h. cc), λ h. absurd h)
has_room_iff spec commit (some c) (some t) =
    ((λ h. (ground arith, ground arith)), λ (a, b). ground arith)

is_required_iff :
    (required : Option ℕ) (h : Host) → (is_required required h ≡ true) ↔ IsNamed required h.id
is_required_iff none h = ((λ n. tt), λ n. λ i. true)
is_required_iff (some p) h = ==_iff p h.id

-- The host to agree on is named exactly when both names are.
IsNamed-iff :
    (pinned requested required : Option ℕ) (id : ℕ)
    → reconcile_hosts pinned requested ≡ ok required
    → IsNamed required id ↔ (IsNamed requested id × IsNamed pinned id)
IsNamed-iff none r required id e =
    let same : required ≡ r = cc in rw same ((λ n. (n, tt)), λ n. n.0)
IsNamed-iff (some p) none required id e =
    let same : required ≡ some p = cc in rw same ((λ n. (tt, n)), λ n. n.1)
IsNamed-iff (some p) (some r) required id e = elim (Bool-cases (p == r)) [
  | inl eq ↦
      let both : p ≡ r = (==_iff p r).0 eq in
      let same : required ≡ some p = ground arith in rw same ((λ n. (sym both ∙ n, n)), λ n. n.1)
  | inr ne ↦ absurd (disagree (reconcile_hosts (some p) (some r)) (ground arith) e)
]
  where
    disagree :
        (o : Result Unschedulable (Option ℕ)) → o ≡ err placement_conflict → o ≡ ok required → ⊥
    disagree o h g = cc

-- Without an agreed host, no host is both.
pub conflict_lem :
    (pinned requested : Option ℕ) (why : Unschedulable) (id : ℕ)
    → reconcile_hosts pinned requested ≡ err why
    → IsNamed requested id
    → IsNamed pinned id
    → ⊥
conflict_lem none r why id e n m = cc
conflict_lem (some p) none why id e n m = cc
conflict_lem (some p) (some r) why id e n m =
    let agreed = (==_iff p r).1 (m ∙ sym n) in ground arith

abbrev pub is_candidate :
    VirtualMachineSpec → (ℕ → Option HostCommit) → (ℕ → Option (List ℕ)) → Option ℕ → Host → Bool
is_candidate spec committed pools required h =
    is_reachable required (required_pools spec) pools h && fits spec committed h

-- The filters of `schedule` keep the hosts that suit the VM.
pub candidate_iff :
    (spec : VirtualMachineSpec) (committed : ℕ → Option HostCommit) (pools : ℕ → Option (List ℕ))
    (required : Option ℕ) (h : Host)
    → required_host spec ≡ ok required
    → (is_candidate spec committed pools required h ≡ true) ↔ Suits spec committed pools h
unfolding required_host required_pools passes_filters
candidate_iff spec committed pools required h e =
    let named = IsNamed-iff (pinned_host spec) spec.placement.host required h.id e in
    let test = is_required_iff required h in
    let reach = can_reach_iff spec.disks (pools h.id) in
    let room = has_room_iff spec (commit_of committed h.id) h.logical_cpus h.total_memory_bytes in
    (
      (λ c.
          let (n, p) = named.0 (test.0 (ground arith)) in
          record {
            requested = n;
            pinned = p;
            reported = reach.0 (ground arith);
            room = room.0 (ground arith);
          }),
      λ s.
          let t₁ = test.1 (named.1 (s.requested, s.pinned)) in
          let t₂ = reach.1 s.reported in let t₃ = room.1 s.room in rw (t₁, t₂, t₃) (λ i. true),
    )
