-- ===== src/Scheduler/Placing.antt =====
-- The first step of `reconcile_ensure` of services/control/src/reconcile.rs, which places a VM that has
-- no host, with `committed_by_host` and `assign_vm_host`, over the VMs of a pass.
pub mod Loads
pub mod Capacity
use vquasar.Model.{VirtualMachineSpec, size_bytes}
use vquasar.Scheduler.{
  HostCommit, commit_of, Host, Floats, Unschedulable, schedule, VirtualMachineSpec,
}
use vquasar.Base.Int.{pos, wrap_i64, add_i64}
use vquasar.Base.{none, some, [], ◌∷◌, Option, List, ℕ, String, if◌then◌else◌, map, str_eq, ◌==◌}
use vquasar.Base.Result.{Result, ok, err}

-- The columns of a VM's row that placement reads.
pub record Vm : Type 0 where
  pub id : ℕ
  pub phase : String
  pub host_id : Option ℕ
  pub spec : VirtualMachineSpec

-- `committed.entry(host_id).or_default()`, with the two sums.
abbrev pub commit_more : (ℕ → Option HostCommit) → Vm → ℕ → (ℕ → Option HostCommit)
commit_more committed vm h k =
    if k == h
    then some record {
      vcpus = add_i64 (commit_of committed h).vcpus (pos vm.spec.cpu.boot_vcpus);
      memory_bytes =
          add_i64 (commit_of committed h).memory_bytes (wrap_i64 (pos (size_bytes vm.spec.memory)));
    }
    else committed k

abbrev pub commit_host : (ℕ → Option HostCommit) → Vm → Option ℕ → (ℕ → Option HostCommit)
commit_host committed vm none = committed
commit_host committed vm (some h) = commit_more committed vm h

-- The body of the loop.
abbrev pub commit_vm : (ℕ → Option HostCommit) → Vm → (ℕ → Option HostCommit)
commit_vm committed vm =
    if str_eq vm.phase "Deleting" then committed else commit_host committed vm vm.host_id

abbrev pub commit_all : (ℕ → Option HostCommit) → List Vm → (ℕ → Option HostCommit)
commit_all committed [] = committed
commit_all committed (vm ∷ vms) = commit_all (commit_vm committed vm) vms

unfoldable pub committed_by_host : List Vm → (ℕ → Option HostCommit)
committed_by_host vms = commit_all (λ k. none) vms

abbrev pub assigned : ℕ → ℕ → Vm → Vm
assigned id host_id r =
    if r.id == id then record r { host_id = some host_id; phase = "Scheduling" } else r

unfoldable pub assign_vm_host : ℕ → ℕ → List Vm → List Vm
assign_vm_host id host_id rows = map (assigned id host_id) rows

abbrev pub after_schedule : ℕ → Result Unschedulable ℕ → List Vm → List Vm
after_schedule id (ok host_id) rows = assign_vm_host id host_id rows
after_schedule id (err why) rows = rows

module _ (f64 : Floats) (hosts : List Host) (pools : ℕ → Option (List ℕ)) where
  -- The rows after the step, for a VM as the pass has read it.
  abbrev pub place_unless : Vm → Option ℕ → List Vm → List Vm
  place_unless vm (some h) rows = rows
  place_unless vm none rows =
      after_schedule vm.id (schedule f64 vm.spec hosts (committed_by_host rows) pools) rows

  unfoldable pub place : Vm → List Vm → List Vm
  place vm rows = place_unless vm vm.host_id rows

  -- A pass over the VMs that are not being deleted, when nothing else changes the rows.
  unfoldable pub place_all : List Vm → List Vm → List Vm
  place_all [] rows = rows
  place_all (vm ∷ vms) rows =
      place_all vms (if str_eq vm.phase "Deleting" then rows else place vm rows)
