-- ===== src/Scheduler.antt =====
-- services/control/src/scheduler.rs: the choice of a host for a VM. The maps by host id are functions,
-- the sets of pools are lists, and `f64` is a parameter with its division and its comparison.
pub mod Best
pub mod Placing
pub mod Choice
pub mod Outcome
use vquasar.Base.{
  String, ℕ, List, Option, Bool, none, some, [], ◌∷◌, not, ◌&&◌, ◌||◌, ◌==◌, if◌then◌else◌, opt_eq,
  is_some, is_none, unwrap_or, keep, all, elem, is_empty, false, true,
}
use vquasar.Base.Int.{ℤ, pos, sub_i64, wrap_i64, leb_ℤ, ltb_ℤ}
use vquasar.Base.Result.{Result, ok, err}
use vquasar.Model.{VirtualMachineSpec, DiskSpec, size_bytes}

pub data Unschedulable : Type 0 where
  unreachable_storage : Unschedulable
  requested_host_unavailable : Unschedulable
  placement_conflict : Unschedulable
  no_capacity : Unschedulable

unfoldable pub reason : Unschedulable → String
reason unreachable_storage = "no schedulable host reports the storage pool this VM's disks are in"
reason requested_host_unavailable = "the host this VM asks to be placed on is not available"
reason placement_conflict = "this VM asks for one host and its disks are on another"
reason no_capacity = "waiting for a schedulable host"

-- The columns of a host's row that placement reads.
pub record Host : Type 0 where
  pub id : ℕ
  pub logical_cpus : Option ℤ
  pub total_memory_bytes : Option ℤ

pub record HostCommit : Type 0 where
  pub vcpus : ℤ
  pub memory_bytes : ℤ

-- `f64`: division of two integers, zero, and `partial_cmp`.
pub data Ordering : Type 0 where
  less : Ordering
  equal : Ordering
  greater : Ordering

pub record Floats : Type 1 where
  pub F : Type 0
  pub ratio : ℤ → ℤ → F
  pub zero : F
  pub partial_cmp : F → F → Option Ordering

abbrev pub pinned_in : List DiskSpec → Option ℕ
pinned_in [] = none
pinned_in (d ∷ ds) = let rest = pinned_in ds in elim d.pinned_host [ some h ↦ some h | none ↦ rest ]

unfoldable pub pinned_host : VirtualMachineSpec → Option ℕ
pinned_host spec = pinned_in spec.disks

abbrev pub reconcile_hosts : Option ℕ → Option ℕ → Result Unschedulable (Option ℕ)
reconcile_hosts (some p) (some r) = if p == r then ok (some p) else err placement_conflict
reconcile_hosts (some p) none = ok (some p)
reconcile_hosts none r = ok r

unfoldable pub required_host : VirtualMachineSpec → Result Unschedulable (Option ℕ)
required_host spec = reconcile_hosts (pinned_host spec) spec.placement.host

abbrev pub with_pool : Option ℕ → List ℕ → List ℕ
with_pool none rest = rest
with_pool (some p) rest = p ∷ rest

abbrev pub pools_of : List DiskSpec → List ℕ
pools_of [] = []
pools_of (d ∷ ds) = with_pool d.pool (pools_of ds)

unfoldable pub required_pools : VirtualMachineSpec → List ℕ
required_pools spec = pools_of spec.disks

-- `needed.is_subset(r)`.
abbrev pub is_subset : List ℕ → List ℕ → Bool
is_subset needed r = all (λ p. elem p r) needed

unfoldable pub can_reach : List ℕ → Option (List ℕ) → Bool
can_reach needed none = is_empty needed
can_reach needed (some r) = is_empty needed || is_subset needed r

unfoldable pub commit_of : (ℕ → Option HostCommit) → ℕ → HostCommit
commit_of committed id = unwrap_or (committed id) (record { vcpus = pos 0; memory_bytes = pos 0 })

abbrev pub has_room : VirtualMachineSpec → HostCommit → Option ℤ → Option ℤ → Bool
has_room spec commit none total_mem = false
has_room spec commit (some cpus) none = false
has_room spec commit (some cpus) (some total_mem) =
    leb_ℤ (pos spec.cpu.boot_vcpus) (sub_i64 cpus commit.vcpus)
    && leb_ℤ (wrap_i64 (pos (size_bytes spec.memory))) (sub_i64 total_mem commit.memory_bytes)

unfoldable pub passes_filters : VirtualMachineSpec → Host → HostCommit → Bool
passes_filters spec host commit = has_room spec commit host.logical_cpus host.total_memory_bytes

-- `required.is_none_or(|p| p == h.id)`.
abbrev pub is_required : Option ℕ → Host → Bool
is_required none h = true
is_required (some p) h = p == h.id

abbrev pub is_reachable : Option ℕ → List ℕ → (ℕ → Option (List ℕ)) → Host → Bool
is_reachable required needed pools h = is_required required h && can_reach needed (pools h.id)

abbrev pub fits : VirtualMachineSpec → (ℕ → Option HostCommit) → Host → Bool
fits spec committed h = passes_filters spec h (commit_of committed h.id)

-- `Iterator::max_by`: a later item replaces the best so far unless the best is greater.
abbrev pub is_greater : Option Ordering → Bool
is_greater (some greater) = true
is_greater (some less) = false
is_greater (some equal) = false
is_greater none = false

module _ {ℓ} {A : Type ℓ} where
  abbrev pub best_of : (A → A → Option Ordering) → A → List A → A
  best_of cmp best [] = best
  best_of cmp best (x ∷ xs) = best_of cmp (if is_greater (cmp best x) then best else x) xs

  abbrev pub max_by : (A → A → Option Ordering) → List A → Option A
  max_by cmp [] = none
  max_by cmp (x ∷ xs) = some (best_of cmp x xs)

-- Why no host is left, when there are hosts and none is reachable.
abbrev pub refusal : VirtualMachineSpec → Option ℕ → List ℕ → Option Unschedulable
refusal spec required needed =
    if is_some required && is_none (pinned_host spec)
    then some requested_host_unavailable
    else if not (is_empty needed) || is_some required
    then some unreachable_storage
    else none

abbrev pub early_refusal :
    VirtualMachineSpec → Option ℕ → List ℕ → List Host → List Host → Option Unschedulable
early_refusal spec required needed hosts reachable =
    if is_empty reachable && not (is_empty hosts) then refusal spec required needed else none

abbrev pub host_id : Option Host → Result Unschedulable ℕ
host_id none = err no_capacity
host_id (some h) = ok h.id

module _ (f64 : Floats) where
  abbrev ratio_of : HostCommit → Option ℤ → f64.F
  ratio_of commit none = f64.zero
  ratio_of commit (some total) =
      if ltb_ℤ (pos 0) total then f64.ratio (sub_i64 total commit.memory_bytes) total else f64.zero

  unfoldable pub score : Host → HostCommit → f64.F
  score host commit = ratio_of commit host.total_memory_bytes

  abbrev pub compare : (ℕ → Option HostCommit) → Host → Host → Option Ordering
  compare committed a b =
      f64.partial_cmp (score a (commit_of committed a.id)) (score b (commit_of committed b.id))

  abbrev pub choose :
      VirtualMachineSpec
      → (ℕ → Option HostCommit)
      → List Host
      → Option Unschedulable
      → Result Unschedulable ℕ
  choose spec committed reachable (some why) = err why
  choose spec committed reachable none =
      host_id (max_by (compare committed) (keep (fits spec committed) reachable))

  abbrev pub schedule_on :
      VirtualMachineSpec
      → List Host
      → (ℕ → Option HostCommit)
      → (ℕ → Option (List ℕ))
      → Result Unschedulable (Option ℕ)
      → Result Unschedulable ℕ
  schedule_on spec hosts committed pools (err why) = err why
  schedule_on spec hosts committed pools (ok required) =
      let needed = required_pools spec in
      let reachable = keep (is_reachable required needed pools) hosts in
      choose spec committed reachable (early_refusal spec required needed hosts reachable)

  unfoldable pub schedule :
      VirtualMachineSpec
      → List Host
      → (ℕ → Option HostCommit)
      → (ℕ → Option (List ℕ))
      → Result Unschedulable ℕ
  schedule spec hosts committed pools = schedule_on spec hosts committed pools (required_host spec)
