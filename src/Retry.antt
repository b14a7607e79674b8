-- ===== src/Retry.antt =====
-- services/control/src/reconcile.rs: how a VM whose reconciliation fails is tried again, with the
-- statements of services/control/src/store.rs that count its failures. Times are microseconds.
pub mod Budget
use vquasar.Base.{
  not, ◌&&◌, String, ℕ, Option, Bool, none, some, true, false, ◌+◌, ◌-◌, ◌*◌, ◌^◌, ◌==◌, ◌||◌, ltb,
  leb, min, if◌then◌else◌,
}
use vquasar.Base.Result.{Result, ok, err}
use vquasar.Model.{is_settled, migrating, VmPhase, failed}

pub record Vm : Type 0 where
  pub phase : VmPhase
  pub message : Option String
  pub generation : ℕ
  pub observed_generation : ℕ
  pub reconcile_failures : ℕ
  pub last_reconcile_at : Option ℕ

abbrev pub max_reconcile_failures : ℕ
max_reconcile_failures = 5

-- `failures.clamp(0, 3)` is `min failures 3`, as a count is not negative.
unfoldable pub backoff : ℕ → ℕ
backoff failures = min (2 * 2 ^ min failures 3) 10 * 1000000

abbrev waited : ℕ → ℕ → Option ℕ → Bool
waited now failures none = true
waited now failures (some last) = leb (backoff failures) (now - last)

unfoldable pub due : ℕ → Vm → Bool
due now vm = (vm.reconcile_failures == 0) || waited now vm.reconcile_failures vm.last_reconcile_at

-- The `UPDATE`, whose `RETURNING` is the new count.
unfoldable pub record_reconcile_failure : ℕ → String → Vm → Vm
record_reconcile_failure now error vm = record vm {
  reconcile_failures = vm.reconcile_failures + 1;
  last_reconcile_at = some now;
  message = some error;
}

unfoldable pub clear_reconcile_failures : ℕ → Vm → Vm
clear_reconcile_failures now vm =
    if vm.reconcile_failures == 0
    then vm
    else record vm { reconcile_failures = 0; last_reconcile_at = some now }

unfoldable pub fail_vm : String → Vm → Vm
fail_vm message vm = record vm { phase = failed; message = some message }

-- `recorded` and `marked` say whether the two statements succeed; `summary` is the text that
-- `format!` makes of the count and the error.
unfoldable pub note_reconcile_failure : (ℕ → String → String) → Bool → Bool → ℕ → String → Vm → Vm
note_reconcile_failure summary recorded marked now error vm =
    let vm' = record_reconcile_failure now error vm in
    if recorded
    then (if ltb vm'.reconcile_failures max_reconcile_failures
        then vm'
        else if marked
        then fail_vm (summary vm'.reconcile_failures error) vm'
        else vm')
    else vm

-- `WHERE phase NOT IN ('Running', 'Stopped', 'Failed') OR generation <> observed_generation`.
unfoldable pub list_vms_to_reconcile : Vm → Bool
list_vms_to_reconcile vm =
    not (is_settled vm.phase) || not (vm.generation == vm.observed_generation)

abbrev pub is_migrating : VmPhase → Bool
is_migrating migrating = true
is_migrating _ = false

-- The turn of one VM in a pass of `reconcile_vms`, if its `reconcile_ensure` or `reconcile_delete`
-- fails and leaves the row as it is.
unfoldable pub failing_pass : (ℕ → String → String) → Bool → Bool → ℕ → String → Vm → Vm
failing_pass summary recorded marked now error vm =
    if list_vms_to_reconcile vm && (not (is_migrating vm.phase) && due now vm)
    then note_reconcile_failure summary recorded marked now error vm
    else vm
