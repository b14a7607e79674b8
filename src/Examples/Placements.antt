-- ===== src/Examples/Placements.antt =====
-- Two hosts that report the pool of the VM's disk. A score is held in millionths.
use vquasar.Model.{size_bytes}
use vquasar.Scheduler.Choice.{Suits}
use vquasar.Scheduler.Outcome.{Outcome}
use vquasar.Scheduler.Best.{FloatLaws, schedule_best}
use vquasar.Scheduler.{
  Floats, is_greater, schedule, Host, HostCommit, Ordering, required_host, pinned_host,
  required_pools, can_reach, less, commit_of, greater, equal, passes_filters, score, compare,
}
use vquasar.Base.{
  refl, none, some, [], ◌∷◌, List, Option, ℕ, ◌*◌, arith, ◌/◌, ◌≡◌, false, if◌then◌else◌, true,
  ◌==◌, ◌↔◌, Memᴰ, ◌<◌, ◌≤◌, ◌^◌,
}
use vquasar.Base.Int.{ℤ, pos, negsuc, ltb_ℤ, ◌<ℤ◌, ◌≤ℤ◌, sub_i64, wrap_i64, ◌-ℤ◌}
use vquasar.Scheduler.Placing.{Vm, place_all}
use vquasar.Scheduler.Placing.Loads.{load, vcpus, bytes, IsKeyed}
use vquasar.Scheduler.Placing.Capacity.{place_all-IsWithin, IsWithin}
use vquasar.Examples.Specs.{spec}
use vquasar.Model.{size_bytes}
use vquasar.Scheduler.Choice.{Suits}

abbrev per_million : ℤ → ℤ → ℤ
per_million (pos a) (pos b) = pos (a * 1000000 / b)
per_million (pos a) (negsuc b) = pos 0
per_million (negsuc a) b = negsuc a

abbrev compare_ℤ : ℤ → ℤ → Option Ordering
compare_ℤ a b = if ltb_ℤ a b then some less else if ltb_ℤ b a then some greater else some equal

abbrev fixed_point : Floats
fixed_point = record { F = ℤ; ratio = per_million; zero = pos 0; partial_cmp = compare_ℤ }

above_iff : (a b : ℤ) → (is_greater (compare_ℤ a b) ≡ true) ↔ (b <ℤ a)
above_iff a b = ground arith

not_above_iff : (a b : ℤ) → (is_greater (compare_ℤ a b) ≡ false) ↔ (a ≤ℤ b)
not_above_iff a b = ground arith

fixed_point_laws : FloatLaws fixed_point
fixed_point_laws = record {
  IsNumber = λ a. Unit;
  zero-IsNumber = tt;
  ratio-IsNumber = λ a b p. tt;
  refl_law = λ x n. (not_above_iff x x).1 (omega arith);
  flip_law = λ x y n m h. let lt = (above_iff x y).0 h in (not_above_iff y x).1 (omega arith);
  trans_law = λ x y z n m k g h.
      let le₁ = (not_above_iff x y).0 g in
      let le₂ = (not_above_iff y z).0 h in (not_above_iff x z).1 (omega arith);
}

abbrev hosts : List Host
hosts =
    record { id = 1; logical_cpus = some (pos 8); total_memory_bytes = some (pos 17179869184) }
    ∷ record { id = 2; logical_cpus = some (pos 8); total_memory_bytes = some (pos 17179869184) }
    ∷ []

-- Half of the first host is committed.
abbrev committed : ℕ → Option HostCommit
committed id =
    if id == 1 then some (record { vcpus = pos 4; memory_bytes = pos 8589934592 }) else none

abbrev pools : ℕ → Option (List ℕ)
pools id = some (9 ∷ [])

abbrev chosen : ℕ
chosen = 2

schedule_best_example :
    (best : Host) × Memᴰ best hosts
    × (best.id ≡ chosen)
    × Suits spec committed pools best
    × ((h : Host)
        → Memᴰ h hosts
        → Suits spec committed pools h
        → is_greater (compare fixed_point committed h best) ≡ false)
unfolding schedule required_host pinned_host required_pools can_reach commit_of passes_filters score
    sub_i64 wrap_i64 ◌-ℤ◌ size_bytes
schedule_best_example =
    schedule_best fixed_point fixed_point_laws spec hosts committed pools chosen refl

-- Three VMs without a host, for two hosts.
abbrev waiting : ℕ → Vm
waiting id = record { id = id; phase = "Pending"; host_id = none; spec = spec }

abbrev fleet : List Vm
fleet = waiting 1 ∷ waiting 2 ∷ waiting 3 ∷ []

small_spec : bytes spec < 2 ^ 63
unfolding size_bytes
small_spec = omega arith

empty_hosts : (k : ℕ) → (load vcpus fleet k ≤ 8) × (load bytes fleet k ≤ 17179869184)
unfolding load
empty_hosts k = (omega arith, omega arith)

fleet-IsKeyed : IsKeyed fleet
fleet-IsKeyed = (
  ((λ e. absurd (omega arith)), ((λ e. absurd (omega arith)), tt)),
  (((λ e. absurd (omega arith)), tt), (tt, tt)),
)

place_all-IsWithin_example :
    IsWithin (λ k. 8) (λ k. 17179869184) (place_all fixed_point hosts pools fleet fleet)
place_all-IsWithin_example =
    place_all-IsWithin fixed_point hosts pools (λ k. 8) (λ k. 17179869184)
      (λ k. (omega arith, omega arith))
      ((omega arith, omega arith), ((omega arith, omega arith), tt)) fleet fleet fleet-IsKeyed
      (small_spec, (small_spec, (small_spec, tt))) (λ v m. m) fleet-IsKeyed empty_hosts
