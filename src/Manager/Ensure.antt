-- ===== src/Manager/Ensure.antt =====
-- services/agent/src/manager.rs: `ensure`, which brings a VM to its specification, with `reconfigure`
-- and `observe`.
use vquasar.Base.{
  ℕ, zero, suc, leb, not, ◌==◌, ◌-◌, Bool, true, false, Option, none, some, List, [], ◌∷◌, length,
  is_some, unwrap_or, ◌&&◌, if◌then◌else◌, String,
}
use vquasar.Base.Action.{◌>>=◌, ◌>>◌, pure, raise, lift, gets, modify, attempt}
use vquasar.Base.Result.{Result, ok, err}
use vquasar.Model.{
  VirtualMachineSpec, NetworkInterfaceSpec, DiskSpec, VmPhase, DesiredPowerState, powered_on,
  powered_off, stopped, hotplug_bytes, size_bytes,
}
use vquasar.Model.Mac.{allocate_mac}
use vquasar.Model.Validation.{validate, ValidationError}
use vquasar.Manager.{
  Outside, Manage, ⊤, ask, must, ManagerError, invalid_spec, network, prepare_nic, rehome_nic,
  release_nic, NicBinding, TapBinding, VmRecord, Vmm, ManagedVm, ObservedVm, MigrationSettings,
  on_vms, lookup, insert, remove, HypervisorState,
}
use vquasar.Manager.Hypervisor.{
  launch, current_state, create, boot, shut_down, terminate, resize, add_disk, add_net, phase_of,
  is_created,
}
use vquasar.Manager.Files.{store_record, prepare, has_path}

-- The phase and whether it is the answer of a call that failed.
abbrev pub phase_or_failed : Option HypervisorState → VmPhase
phase_or_failed none = VmPhase.failed
phase_or_failed (some state) = phase_of state

-- The address of the first NIC, from `index`, that has one.
abbrev pub first_address : Outside → ℕ → ℕ → List NetworkInterfaceSpec → Option String
first_address o id index [] = none
first_address o id index (nic ∷ nics) =
    let rest = first_address o id (suc index) nics in
    elim (o.address_of (unwrap_or nic.mac (allocate_mac id index))) [
      | none ↦ rest
      | some ip ↦ some ip
    ]

unfoldable pub observe : Outside → ManagedVm → Manage ObservedVm
observe o managed = do
  state ← current_state o managed.vmm
  let r = managed.record_of
  pure (record {
    id = r.id;
    name = r.name;
    phase = phase_or_failed state;
    pid = managed.vmm.process;
    failed = not (is_some state);
    ip = first_address o r.id 0 r.spec.network_interfaces;
  })

abbrev pub with_macs : List NetworkInterfaceSpec → List NicBinding → List NetworkInterfaceSpec
with_macs (nic ∷ nics) (b ∷ bs) =
    (if is_some nic.mac then nic else record nic { mac = some b.mac }) ∷ with_macs nics bs
with_macs nics _ = nics

-- `network.prepare`, and what it returns.
unfoldable pub prepare_tap : Outside → ℕ → ℕ → NicBinding → Manage TapBinding
prepare_tap o id index b =
    must o network (prepare_nic id index b)
    >> pure (record { tap = o.tap_name id index; mac = some b.mac })

unfoldable pub prepare_taps : Outside → ℕ → ℕ → List NicBinding → Manage (List TapBinding)
prepare_taps o id index [] = pure []
prepare_taps o id index (b ∷ bs) = do
  tap ← prepare_tap o id index b
  taps ← prepare_taps o id (suc index) bs
  pure (tap ∷ taps)

unfoldable pub rehome_all : Outside → ℕ → ℕ → List NicBinding → Manage ⊤
rehome_all o id index [] = pure tt
rehome_all o id index (b ∷ bs) =
    must o network (rehome_nic id index b) >> rehome_all o id (suc index) bs

-- The NICs 0 to `count - 1`; an error is only logged.
unfoldable pub release_from : Outside → ℕ → ℕ → ℕ → Manage ⊤
release_from o id index zero = pure tt
release_from o id index (suc count) =
    ask o (release_nic id index) >> release_from o id (suc index) count

abbrev pub release_all : Outside → ℕ → ℕ → Manage ⊤
release_all o id count = release_from o id 0 count

unfoldable pub resize_vcpus : Outside → Vmm → VirtualMachineSpec → VirtualMachineSpec → Manage ⊤
resize_vcpus o v old new =
    if new.cpu.boot_vcpus == old.cpu.boot_vcpus
    then pure tt
    else if leb new.cpu.boot_vcpus old.cpu.max_vcpus
    then resize o v (some new.cpu.boot_vcpus) none
    else pure tt

unfoldable pub resize_memory : Outside → Vmm → VirtualMachineSpec → VirtualMachineSpec → Manage ⊤
resize_memory o v old new =
    if new.memory.size_mib == old.memory.size_mib
    then pure tt
    else if is_some (hotplug_bytes old.memory)
        && leb new.memory.size_mib (unwrap_or old.memory.max_size_mib 0)
    then resize o v none (some (size_bytes new.memory))
    else pure tt

unfoldable pub add_disks : Outside → Vmm → List DiskSpec → List DiskSpec → Manage ⊤
add_disks o v old [] = pure tt
add_disks o v old (d ∷ ds) = do
  (if has_path d.path old then pure tt else add_disk o v d)
  add_disks o v old ds

abbrev pub drop : {A : Type 0} → ℕ → List A → List A
drop zero xs = xs
drop (suc n) [] = []
drop (suc n) (x ∷ xs) = drop n xs

-- `count` NICs from `index`, each with the binding of its index if there is one.
unfoldable pub add_nics : Outside → ℕ → Vmm → ℕ → ℕ → List NicBinding → Manage ⊤
add_nics o id v index zero bs = pure tt
add_nics o id v index (suc count) [] = pure tt
add_nics o id v index (suc count) (b ∷ bs) = do
  tap ← prepare_tap o id index b
  add_net o v tap
  add_nics o id v (suc index) count bs

unfoldable pub reconfigure :
    Outside → ℕ → ManagedVm → VirtualMachineSpec → List NicBinding → Manage ⊤
reconfigure o id managed new bindings = do
  let old = managed.record_of.spec
  let count = length old.network_interfaces
  resize_vcpus o managed.vmm old new
  resize_memory o managed.vmm old new
  add_disks o managed.vmm old.disks new.disks
  add_nics o id managed.vmm count (length new.network_interfaces - count) (drop count bindings)

unfoldable pub stop_vmm : Outside → ManagedVm → Manage ⊤
stop_vmm o managed = do attempt (shut_down o managed.vmm); terminate o managed.vmm

unfoldable pub stopped_vm : ℕ → String → ObservedVm
stopped_vm id name = record {
  id = id;
  name = name;
  phase = stopped;
  pid = none;
  failed = false;
  ip = none;
}

unfoldable pub stop_found : Outside → Option ManagedVm → Manage ⊤
stop_found o none = pure tt
stop_found o (some managed) = stop_vmm o managed

-- `vms.remove`, then the end of the VMM if there was one.
unfoldable pub power_off : MigrationSettings → Outside → VmRecord → Manage ObservedVm
power_off m o r = do
  found ← gets (λ s. lookup r.id s.vms)
  modify (on_vms (remove r.id))
  stop_found o found
  prepare m o r.id r.spec
  pure (stopped_vm r.id r.name)

-- The VMM of a VM, and whether it is new.
unfoldable pub manage :
    Outside → VmRecord → List NicBinding → Option ManagedVm → Manage (ManagedVm × Bool)
manage o r bindings (some managed) = rehome_all o r.id 0 bindings >> pure (managed, false)
manage o r bindings none = do
  taps ← prepare_taps o r.id 0 bindings
  v ← launch o r.id taps
  let managed : ManagedVm = record { record_of = r; vmm = v }
  modify (on_vms (insert r.id managed))
  pure (managed, true)

unfoldable pub discard_vmm : Outside → ℕ → ManagedVm → ℕ → Manage ⊤
discard_vmm o id managed nics = do
  modify (on_vms (remove id))
  terminate o managed.vmm
  release_all o id nics

-- What `ensure` does when the boot failed with `e`.
unfoldable pub boot_failed : Outside → ℕ → ManagedVm → ℕ → ManagerError → Manage ObservedVm
boot_failed o id managed nics e = do
  state ← current_state o managed.vmm
  (if is_created state then discard_vmm o id managed nics else pure tt)
  raise e

unfoldable pub after_boot :
    Outside → VmRecord → ManagedVm → ℕ → Result ManagerError ⊤ → Manage ObservedVm
after_boot o r managed nics (err e) = boot_failed o r.id managed nics e
after_boot o r managed nics (ok _) = do
  seen ← observe o managed
  modify (on_vms (insert r.id (record managed { record_of = r })))
  pure seen

unfoldable pub power_on : Outside → VmRecord → List NicBinding → Manage ObservedVm
power_on o r bindings = do
  found ← gets (λ s. lookup r.id s.vms)
  (managed, is_new) ← manage o r bindings found
  create o managed.vmm r.spec
  (if is_new then pure tt else reconfigure o r.id managed r.spec bindings)
  booted ← attempt (boot o managed.vmm)
  after_boot o r managed (length bindings) booted

abbrev pub validated : Result ValidationError ⊤ → Result ManagerError ⊤
validated (ok u) = ok tt
validated (err e) = err (invalid_spec e)

unfoldable pub to_power :
    MigrationSettings → Outside → VmRecord → List NicBinding → DesiredPowerState → Manage ObservedVm
to_power m o r bindings powered_off = power_off m o r
to_power m o r bindings powered_on = power_on o r bindings

abbrev pub desired : ℕ → String → VirtualMachineSpec → List NicBinding → VmRecord
desired id name spec bindings = record {
  id = id;
  name = name;
  spec = record spec { network_interfaces = with_macs spec.network_interfaces bindings };
}

unfoldable pub ensure :
    MigrationSettings
    → Outside
    → ℕ
    → String
    → VirtualMachineSpec
    → List NicBinding
    → Manage ObservedVm
ensure m o id name spec bindings = do
  lift (validated (validate spec))
  prepared ← prepare m o id spec
  let r = desired id name prepared bindings
  store_record o r
  to_power m o r bindings r.spec.desired_power_state
