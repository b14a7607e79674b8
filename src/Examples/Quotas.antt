-- ===== src/Examples/Quotas.antt =====
-- A project with room for one more VM.
use vquasar.Model.{VirtualMachineSpec}
use vquasar.Quota.Stale.{stale_edit_admitted}
use vquasar.Quota.Usage.{IsSmall, IsWithin, insert_vm_with_id-IsWithin}
use vquasar.Base.{refl, none, some, [], ◌∷◌, arith, ◌≡◌, ℕ, ◌⊎◌}
use vquasar.Base.Result.{ok}
use vquasar.Base.Int.{sub_i64, ◌-ℤ◌, pos, add_i64, wrap_i64, ◌+ℤ◌}
use vquasar.Quota.{
  dimensions, of_vm, disk_bytes, Database, Limits, VmRow, usage_in, write_spec_after,
  insert_vm_with_id, set_spec, find_vm, write_spec, admit, check, check_dimensions, delta,
}
use vquasar.Examples.Specs.{spec}

abbrev limits : Limits
limits = record {
  max_vms = some (pos 2);
  max_vcpus = some (pos 8);
  max_memory_mib = none;
  max_volumes = none;
  max_storage_bytes = some (pos 30000000000);
}

abbrev existing : VmRow
existing = record { id = 1; project = 5; spec = spec }

abbrev db : Database
db = record {
  quotas = λ project. some limits;
  virtual_machines = existing ∷ [];
  volumes = record { project = 5; size = 1000 } ∷ [];
}

db-IsSmall : IsSmall 5 spec db
db-IsSmall = record {
  vms = omega arith;
  vcpus = omega arith;
  memory_mib = omega arith;
  storage_bytes = omega arith;
}

db-IsWithin : IsWithin limits (usage_in 5 db)
unfolding usage_in add_i64 wrap_i64 ◌+ℤ◌
db-IsWithin = record {
  vms = omega arith;
  vcpus = omega arith;
  memory_mib = tt;
  volumes = tt;
  storage_bytes = omega arith;
}

insert_vm_with_id_example : IsWithin limits (usage_in 5 (insert_vm_with_id 2 5 spec db).1)
insert_vm_with_id_example =
    insert_vm_with_id-IsWithin 2 5 spec db limits refl db-IsSmall db-IsWithin

abbrev cpus : ℕ → VirtualMachineSpec
cpus n = record spec { cpu = record { boot_vcpus = 1; max_vcpus = n } }

-- After the edit has read its row: another edit of the VM to one processor, and a new VM with six.
abbrev between : Database
between = (insert_vm_with_id 2 5 (cpus 6) (write_spec 1 (cpus 1) db).1).1

between_is : between ≡ record db {
  virtual_machines =
      record { id = 2; project = 5; spec = cpus 6 }
      ∷ record { id = 1; project = 5; spec = cpus 1 }
      ∷ [];
}
unfolding write_spec insert_vm_with_id admit check check_dimensions usage_in delta dimensions
    sub_i64 wrap_i64 ◌-ℤ◌ of_vm disk_bytes add_i64 ◌+ℤ◌
between_is = refl

abbrev taken : Database
taken = record db {
  virtual_machines =
      record { id = 2; project = 5; spec = cpus 6 }
      ∷ record { id = 1; project = 5; spec = cpus 1 }
      ∷ [];
}

within_before : (usage_in 5 taken).vcpus ≡ pos 7
unfolding usage_in
within_before = refl

stale_edit_example :
    ((now : VmRow) × (find_vm 1 taken.virtual_machines ≡ some now)
      × (write_spec_after existing 1 spec taken ≡ (
        ok (some (record now { spec = spec })),
        record taken { virtual_machines = set_spec 1 spec taken.virtual_machines },
      )))
    ⊎ ((find_vm 1 taken.virtual_machines ≡ none)
        × (write_spec_after existing 1 spec taken ≡ (ok none, taken)))
stale_edit_example = stale_edit_admitted existing 1 taken

-- The project then uses ten processors of eight.
overrun :
    (usage_in 5 (record taken { virtual_machines = set_spec 1 spec taken.virtual_machines })).vcpus
    ≡ pos 10
unfolding usage_in
overrun = refl
