-- ===== src/Manager/Resizing.antt =====
-- What `reconfigure` asks of a VM that runs, and the limits of the specification that the agent recorded
-- last, which a later `ensure` overwrites: they need not be those that the VM was booted with.
use vquasar.Base.{
  ℕ, ◌*◌, ◌%◌, ◌≤◌, Bool, true, false, Option, none, some, List, ◌≡◌, refl, keep, ltb, leb, ◌==◌,
  ◌&&◌, ◌||◌, not, arith, is_some, unwrap_or,
}
use vquasar.Base.Action.{pure}
use vquasar.Base.Action.Keeps.{Keeps, Keeps-then, Keeps-pure, Keeps-if, Keeps-if_eq}
use vquasar.Model.{VirtualMachineSpec, size_bytes, hotplug_bytes}
use vquasar.Manager.{
  Outside, Agent, ManagedVm, NicBinding, Call, vm_resize, made, on_dirs, Vmm, hypervisor,
}
use vquasar.Manager.Hypervisor.{resize}
use vquasar.Manager.Ensure.{reconfigure, resize_vcpus, resize_memory}
use vquasar.Manager.Local.{Quiet, plain, is_resize, is_remove_seed, must-Keeps}
use vquasar.Manager.Entries.{disks_lem, nics_lem}

abbrev pub beyond : Option ℕ → ℕ → Bool
beyond none limit = false
beyond (some n) limit = ltb limit n

abbrev pub vcpus_of : Call → Option ℕ
vcpus_of (vm_resize v vcpus ram) = vcpus
vcpus_of c = none

abbrev pub ram_of : Call → Option ℕ
ram_of (vm_resize v vcpus ram) = ram
ram_of c = none

-- A resizing beyond the largest number of processors, or the largest memory in bytes.
abbrev pub exceeds : VirtualMachineSpec → Call → Bool
exceeds spec c =
    is_resize c
    && (beyond (vcpus_of c) spec.cpu.max_vcpus
        || beyond (ram_of c) (unwrap_or spec.memory.max_size_mib 0 * 1048576))

bytes_bound :
    (n max : ℕ)
    → n ≤ max
    → n * 1024 % 18446744073709551616 * 1024 % 18446744073709551616 ≤ max * 1048576
bytes_bound n max h = omega arith

module _ (old : VirtualMachineSpec) (c : List Call) where
  abbrev P : Agent → Type 0
  P s = keep (exceeds old) s.calls ≡ c

  called_lem : (x : Call) → exceeds old x ≡ false → (s : Agent) → P s → P (made x s)
  unfolding made
  called_lem x e s h = rw e h

  plain_lem : (x : Call) → plain x ≡ true → exceeds old x ≡ false
  plain_lem x e = go (is_resize x) (is_remove_seed x) _ e
    where
      go : (a b d : Bool) → not (a || b) ≡ true → (a && d) ≡ false
      go false b d e = refl
      go true b d e = cc

  quiet : (id : ℕ) → Quiet id P
  unfolding on_dirs
  quiet id = record {
    called = λ x e. called_lem x (plain_lem x e);
    dir_made = λ s h. h;
    dir_set = λ r s h. h;
    dir_gone = λ s h. h;
  }

  fits_lem : (n max : ℕ) → leb n max ≡ true → (ltb max n || false) ≡ false
  fits_lem n max h = ground arith

  vcpus_lem :
      (o : Outside) (v : Vmm) (new : VirtualMachineSpec) → Keeps P (resize_vcpus o v old new)
  unfolding resize_vcpus resize
  vcpus_lem o v new = Keeps-if (new.cpu.boot_vcpus == old.cpu.boot_vcpus) _ _ (Keeps-pure tt) (
      Keeps-if_eq (leb new.cpu.boot_vcpus old.cpu.max_vcpus)
        (resize o v (some new.cpu.boot_vcpus) none) (pure tt)
        (λ fits.
          must-Keeps o (vm_resize v.socket (some new.cpu.boot_vcpus) none)
            (called_lem _ (fits_lem new.cpu.boot_vcpus old.cpu.max_vcpus fits)) hypervisor)
        (Keeps-pure tt))

  bytes_lem :
      (a : Bool) (n max : ℕ)
      → (a && leb n max) ≡ true
      → ltb (max * 1048576) (n * 1024 % 18446744073709551616 * 1024 % 18446744073709551616) ≡ false
  bytes_lem a n max h = ground (arith, bytes_bound n max)

  memory_lem :
      (o : Outside) (v : Vmm) (new : VirtualMachineSpec) → Keeps P (resize_memory o v old new)
  unfolding resize_memory resize size_bytes
  memory_lem o v new =
      let ceiling = unwrap_or old.memory.max_size_mib 0 in
      Keeps-if (new.memory.size_mib == old.memory.size_mib) _ _ (Keeps-pure tt) (
        Keeps-if_eq (is_some (hotplug_bytes old.memory) && leb new.memory.size_mib ceiling)
          (resize o v none (some (size_bytes new.memory))) (pure tt)
          (λ fits.
            must-Keeps o (vm_resize v.socket none (some (size_bytes new.memory)))
              (called_lem _
                (bytes_lem (is_some (hotplug_bytes old.memory)) new.memory.size_mib ceiling fits))
              hypervisor)
          (Keeps-pure tt))

  reconfigure_lem :
      (o : Outside) (id : ℕ) (m : ManagedVm) (new : VirtualMachineSpec) (bs : List NicBinding)
      → m.record_of.spec ≡ old
      → Keeps P (reconfigure o id m new bs)
  unfolding reconfigure
  reconfigure_lem o id m new bs e = rw e (
      Keeps-then (vcpus_lem o m.vmm new) λ _. Keeps-then (memory_lem o m.vmm new) λ _.
        Keeps-then (disks_lem (quiet id) o m.vmm _ new.disks)
          λ _. nics_lem (quiet id) o m.vmm _ _ _)

-- A change of a VM that runs asks for no more processors than the largest number, and for no more
-- memory than the largest size, in the specification that the agent recorded last for it, whatever
-- the new specification says. These need not be the limits at its boot, since each ensure overwrites
-- the record.
pub reconfigure_within :
    (o : Outside) (id : ℕ) (m : ManagedVm) (new : VirtualMachineSpec) (bs : List NicBinding)
    (s : Agent)
    → keep (exceeds m.record_of.spec) (reconfigure o id m new bs s).1.calls
      ≡ keep (exceeds m.record_of.spec) s.calls
reconfigure_within o id m new bs s =
    (reconfigure_lem m.record_of.spec (keep (exceeds m.record_of.spec) s.calls) o id m new bs
        refl).at
      s refl
