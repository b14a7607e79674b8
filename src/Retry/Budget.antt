-- ===== src/Retry/Budget.antt =====
-- When a VM is given up.
use vquasar.Retry.{
  due, Vm, backoff, note_reconcile_failure, record_reconcile_failure, fail_vm, failing_pass,
  list_vms_to_reconcile, is_migrating,
}
use vquasar.Base.{
  some, none, true, [], ◌∷◌, Bool, ℕ, Option, String, if◌then◌else◌, List, leb, ◌≡◌, ◌==◌, ◌≤◌, ◌⊎◌,
  ◌+◌, arith, All, ◌<◌, ◌≢◌, length, inr, inl, false, Bool-cases, ltb,
}
use vquasar.Model.{failed, is_settled}

-- A pass: whether its two statements succeed, its time, and the error.
abbrev pub Pass : Type 0
Pass = Bool × Bool × ℕ × String

abbrev pub failing_passes : (ℕ → String → String) → List Pass → Vm → Vm
failing_passes summary [] vm = vm
failing_passes summary ((r, m, now, e) ∷ rest) vm =
    failing_passes summary rest (failing_pass summary r m now e vm)

-- Failures since the first one, at `first`, are as many seconds behind it as the backoffs add up to.
abbrev pub budget : ℕ → ℕ
budget k =
    if leb k 1
    then 0
    else if k == 2
    then 4000000
    else if k == 3
    then 12000000
    else if k == 4
    then 22000000
    else 32000000

abbrev Since : ℕ → ℕ → Option ℕ → Type 0
Since first k none = k ≡ 0
Since first k (some last) = (k ≡ 0) ⊎ (first + budget k ≤ last)

record IsPaced (first : ℕ) (vm : Vm) : Type 0 where
  since : Since first vm.reconcile_failures vm.last_reconcile_at
  given_up : vm.phase ≡ failed → 5 ≤ vm.reconcile_failures

pass_lem :
    (summary : ℕ → String → String) (first now : ℕ) (r m : Bool) (e : String) (vm : Vm)
    → first ≤ now
    → IsPaced first vm
    → IsPaced first (failing_pass summary r m now e vm)
unfolding failing_pass due backoff note_reconcile_failure record_reconcile_failure fail_vm
pass_lem summary first now r m e vm le h = record {
  since = ground (arith, h.since);
  given_up = λ q. ground (arith, h.given_up);
}

passes_lem :
    (summary : ℕ → String → String) (first : ℕ) (passes : List Pass) (vm : Vm)
    → All (λ p. first ≤ p.2) passes
    → IsPaced first vm
    → IsPaced first (failing_passes summary passes vm)
passes_lem summary first [] vm le h = h
passes_lem summary first ((r, m, now, e) ∷ rest) vm le h =
    passes_lem summary first rest (failing_pass summary r m now e vm) le.1
      (pass_lem summary first now r m e vm le.0 h)

paced_failed :
    (first : ℕ) (vm : Vm)
    → IsPaced first vm
    → vm.phase ≡ failed
    → (5 ≤ vm.reconcile_failures)
      × ((last : ℕ) × (vm.last_reconcile_at ≡ some last) × (first + 32000000 ≤ last))
paced_failed first vm h e = ground (arith, h.since, h.given_up)

-- A VM without failures, whose reconciliation fails in each pass from the time `first` on, is not given
-- up before its fifth counted failure, which is at least 32 seconds after `first`.
pub gives_up_late :
    (summary : ℕ → String → String) (first : ℕ) (passes : List Pass) (vm : Vm)
    → vm.reconcile_failures ≡ 0
    → vm.phase ≢ failed
    → All (λ p. first ≤ p.2) passes
    → (failing_passes summary passes vm).phase ≡ failed
    → (5 ≤ (failing_passes summary passes vm).reconcile_failures)
      × ((last : ℕ) × ((failing_passes summary passes vm).last_reconcile_at ≡ some last)
          × (first + 32000000 ≤ last))
gives_up_late summary first passes vm zero alive le gone =
    paced_failed first (failing_passes summary passes vm)
      (passes_lem summary first passes vm le
        (record { since = ground arith; given_up = λ q. absurd (alive q) }))
      gone

-- Passes whose statements succeed, each ten seconds or more after the one before.
abbrev pub IsSpaced : ℕ → List Pass → Type 0
IsSpaced last [] = Unit
IsSpaced last ((r, m, now, e) ∷ rest) =
    (last + 10000000 ≤ now) × (r ≡ true) × (m ≡ true) × IsSpaced now rest

abbrev pub IsLast : ℕ → Option ℕ → Type 0
IsLast last none = Unit
IsLast last (some t) = t ≤ last

-- A VM that a pass takes up.
pub record IsActive (vm : Vm) : Type 0 where
  pub unsettled : is_settled vm.phase ≡ false
  pub staying : is_migrating vm.phase ≡ false

abbrev GivenUp : Vm → Type 0
GivenUp vm = (vm.phase ≡ failed) × (5 ≤ vm.reconcile_failures)

abbrev Trying : ℕ → ℕ → Vm → Type 0
Trying last k vm =
    IsLast last vm.last_reconcile_at × (vm.reconcile_failures ≡ k) × (k < 5) × IsActive vm

counted_pass :
    (summary : ℕ → String → String) (last now k : ℕ) (r m : Bool) (e : String) (vm : Vm)
    → last + 10000000 ≤ now
    → r ≡ true
    → m ≡ true
    → Trying last k vm
    → let vm' = failing_pass summary r m now e vm in GivenUp vm' ⊎ Trying now (k + 1) vm'
unfolding failing_pass due backoff note_reconcile_failure record_reconcile_failure fail_vm
    list_vms_to_reconcile
counted_pass summary last now k r m e vm le a b (before, count, few, active) =
    elim (Bool-cases (ltb (k + 1) 5)) [
      | inl more ↦ inr (
        ground (arith, active.unsettled, active.staying),
        ground (arith, active.unsettled, active.staying),
        ground arith,
        record {
          unsettled = ground (arith, active.unsettled, active.staying);
          staying = ground (arith, active.unsettled, active.staying);
        },
      )
      | inr last_one ↦ inl (
        ground (arith, active.unsettled, active.staying),
        ground (arith, active.unsettled, active.staying),
      )
    ]

GivenUp-pass :
    (summary : ℕ → String → String) (now : ℕ) (r m : Bool) (e : String) (vm : Vm)
    → GivenUp vm
    → GivenUp (failing_pass summary r m now e vm)
unfolding failing_pass note_reconcile_failure record_reconcile_failure fail_vm
GivenUp-pass summary now r m e vm (f, n) = (ground arith, ground arith)

counted_passes :
    (summary : ℕ → String → String) (last k : ℕ) (passes : List Pass) (vm : Vm)
    → IsSpaced last passes
    → GivenUp vm ⊎ Trying last k vm
    → let vm' = failing_passes summary passes vm in GivenUp vm' ⊎ (k + length passes < 5)
counted_passes summary last k [] vm sp (inl g) = inl g
counted_passes summary last k [] vm sp (inr (before, count, few, active)) = inr (omega arith)
counted_passes summary last k ((r, m, now, e) ∷ rest) vm (le, a, b, sp) (inl g) =
    let ih =
      counted_passes summary now (k + 1) rest (failing_pass summary r m now e vm) sp
        (inl (GivenUp-pass summary now r m e vm g)) in
    elim ih [ inl up ↦ inl up | inr low ↦ inr (omega arith) ]
counted_passes summary last k ((r, m, now, e) ∷ rest) vm (le, a, b, sp) (inr t) =
    let ih =
      counted_passes summary now (k + 1) rest (failing_pass summary r m now e vm) sp
        (counted_pass summary last now k r m e vm le a b t) in
    elim ih [ inl up ↦ inl up | inr low ↦ inr (omega arith) ]

-- A VM that a pass takes up, without failures, is Failed after five or more passes in which its
-- reconciliation fails and leaves its row as it is, each ten seconds or more after the one before
-- and with its statements done.
pub gives_up :
    (summary : ℕ → String → String) (last : ℕ) (passes : List Pass) (vm : Vm)
    → IsSpaced last passes
    → IsLast last vm.last_reconcile_at
    → IsActive vm
    → vm.reconcile_failures ≡ 0
    → 5 ≤ length passes
    → ((failing_passes summary passes vm).phase ≡ failed)
      × (5 ≤ (failing_passes summary passes vm).reconcile_failures)
gives_up summary last passes vm sp before active zero enough =
    elim (counted_passes summary last 0 passes vm sp (inr (before, zero, omega arith, active))) [
      | inl g ↦ g
      | inr low ↦ absurd (omega arith)
    ]
