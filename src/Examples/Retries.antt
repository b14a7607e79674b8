-- ===== src/Examples/Retries.antt =====
-- A VM whose reconciliation keeps failing.
use vquasar.Retry.Budget.{failing_passes, Pass, gives_up, IsActive}
use vquasar.Retry.{
  due, Vm, backoff, note_reconcile_failure, record_reconcile_failure, fail_vm, failing_pass,
  list_vms_to_reconcile,
}
use vquasar.Base.{refl, none, [], ◌∷◌, true, List, ℕ, ◌≢◌, ◌≤◌, String, ◌≡◌, arith}
use vquasar.Model.{creating, failed, is_settled}

abbrev vm : Vm
vm = record {
  phase = creating;
  message = none;
  generation = 2;
  observed_generation = 1;
  reconcile_failures = 0;
  last_reconcile_at = none;
}

abbrev text : ℕ → String → String
text n e = e

-- A pass each twelve seconds.
abbrev passes : List Pass
passes =
    (true, true, 20000000, "no route")
    ∷ (true, true, 32000000, "no route")
    ∷ (true, true, 44000000, "no route")
    ∷ (true, true, 56000000, "no route")
    ∷ (true, true, 68000000, "no route")
    ∷ []

creating_is_not_failed : creating ≢ failed
creating_is_not_failed = λ e. cc

passes_fail : (failing_passes text passes vm).phase ≡ failed
unfolding failing_pass list_vms_to_reconcile is_settled due backoff note_reconcile_failure
    record_reconcile_failure fail_vm
passes_fail = refl

vm-IsActive : IsActive vm
unfolding is_settled
vm-IsActive = record { unsettled = refl; staying = refl }

gives_up_example :
    ((failing_passes text passes vm).phase ≡ failed)
    × (5 ≤ (failing_passes text passes vm).reconcile_failures)
gives_up_example =
    gives_up text 1000000 passes vm
      (
        omega arith,
        refl,
        refl,
        (
          omega arith,
          refl,
          refl,
          (omega arith, refl, refl, (omega arith, refl, refl, (omega arith, refl, refl, tt))),
        ),
      )
      tt vm-IsActive refl (omega arith)
