-- ===== src/Quota.antt =====
-- services/control/src/quota.rs: a project's quota on what it has asked for. The amounts are `i64`;
-- the rows of `virtual_machines` and `volumes` are lists, and the sums that PostgreSQL computes are
-- exact.
pub mod Check
pub mod Stale
pub mod Usage
use vquasar.Base.Result.{Result, ok, err, is_ok}
use vquasar.Base.Int.{pos, sub_i64, ℤ, wrap_i64, add_i64, leb_ℤ, ltb_ℤ}
use vquasar.Base.{
  Bool, List, Option, String, ℕ, is_none, unwrap_or, ◌∷◌, [], if◌then◌else◌, min, some, ◌&&◌, ◌+◌,
  none, ◌==◌, ◌^◌, ◌-◌,
}
use vquasar.Model.{VirtualMachineSpec, DiskSpec}

pub record Amounts : Type 0 where
  pub vms : ℤ
  pub vcpus : ℤ
  pub memory_mib : ℤ
  pub volumes : ℤ
  pub storage_bytes : ℤ

pub record Limits : Type 0 where
  pub max_vms : Option ℤ
  pub max_vcpus : Option ℤ
  pub max_memory_mib : Option ℤ
  pub max_volumes : Option ℤ
  pub max_storage_bytes : Option ℤ

-- One dimension of a comparison: its name, the limit, what is in use, and what is asked for.
pub record Dimension : Type 0 where
  pub name : String
  pub limit : Option ℤ
  pub used : ℤ
  pub want : ℤ

-- The three `dimensions()` arrays, zipped.
unfoldable pub dimensions : Limits → Amounts → Amounts → List Dimension
dimensions l u d =
    record { name = "vms"; limit = l.max_vms; used = u.vms; want = d.vms }
    ∷ record { name = "vcpus"; limit = l.max_vcpus; used = u.vcpus; want = d.vcpus }
    ∷ record {
      name = "memory_mib";
      limit = l.max_memory_mib;
      used = u.memory_mib;
      want = d.memory_mib;
    }
    ∷ record { name = "volumes"; limit = l.max_volumes; used = u.volumes; want = d.volumes }
    ∷ record {
      name = "storage_bytes";
      limit = l.max_storage_bytes;
      used = u.storage_bytes;
      want = d.storage_bytes;
    }
    ∷ []

-- `b.min(i64::MAX as u64) as i64`.
abbrev pub clamp_i64 : ℕ → ℤ
clamp_i64 b = wrap_i64 (pos (min b (2 ^ 63 - 1)))

abbrev pub add_disk : Option ℕ → ℤ → ℤ
add_disk none rest = rest
add_disk (some b) rest = add_i64 (clamp_i64 b) rest

-- The sum over the disks that have a size, on `i64`.
unfoldable pub disk_bytes : List DiskSpec → ℤ
disk_bytes [] = pos 0
disk_bytes (d ∷ ds) = add_disk d.size_bytes (disk_bytes ds)

unfoldable pub of_vm : VirtualMachineSpec → Amounts
of_vm spec = record {
  vms = pos 1;
  vcpus = pos spec.cpu.max_vcpus;
  memory_mib = clamp_i64 (unwrap_or spec.memory.max_size_mib spec.memory.size_mib);
  volumes = pos 0;
  storage_bytes = disk_bytes spec.disks;
}

unfoldable pub of_volume : ℤ → Amounts
of_volume size_bytes = record {
  vms = pos 0;
  vcpus = pos 0;
  memory_mib = pos 0;
  volumes = pos 1;
  storage_bytes = size_bytes;
}

unfoldable pub delta : Amounts → Amounts → Amounts
delta before after = record {
  vms = sub_i64 after.vms before.vms;
  vcpus = sub_i64 after.vcpus before.vcpus;
  memory_mib = sub_i64 after.memory_mib before.memory_mib;
  volumes = sub_i64 after.volumes before.volumes;
  storage_bytes = sub_i64 after.storage_bytes before.storage_bytes;
}

pub record Exceeded : Type 0 where
  pub dimension : String
  pub limit : ℤ
  pub in_use : ℤ
  pub requested : ℤ

-- The loop of `check`.
unfoldable pub check_dimensions : List Dimension → Result Exceeded (Unit {0})
check_dimensions [] = ok tt
check_dimensions (d ∷ ds) =
    let rest = check_dimensions ds in
    elim d.limit [
      | none ↦ rest
      | some limit ↦
          if leb_ℤ d.want (pos 0)
          then rest
          else if ltb_ℤ limit (add_i64 d.used d.want)
          then err
              (record { dimension = d.name; limit = limit; in_use = d.used; requested = d.want })
          else rest
    ]

unfoldable pub check : Limits → Amounts → Amounts → Result Exceeded (Unit {0})
check limits usage demand = check_dimensions (dimensions limits usage demand)

-- The rows that the transaction reads.
pub record VmRow : Type 0 where
  pub id : ℕ
  pub project : ℕ
  pub spec : VirtualMachineSpec

pub record VolumeRow : Type 0 where
  pub project : ℕ
  pub size : ℕ

pub record Database : Type 0 where
  pub quotas : ℕ → Option Limits
  pub virtual_machines : List VmRow
  pub volumes : List VolumeRow

-- `SUM(...) ... WHERE project_id = $1`.
abbrev pub sum_vms : (VirtualMachineSpec → ℕ) → ℕ → List VmRow → ℕ
sum_vms f project [] = 0
sum_vms f project (row ∷ rows) =
    let rest = sum_vms f project rows in if row.project == project then f row.spec + rest else rest

abbrev pub sum_volumes : (ℕ → ℕ) → ℕ → List VolumeRow → ℕ
sum_volumes f project [] = 0
sum_volumes f project (row ∷ rows) =
    let rest = sum_volumes f project rows in
    if row.project == project then f row.size + rest else rest

abbrev pub one {ℓ} : {A : Type ℓ} → A → ℕ
one a = 1

abbrev pub vcpus_of : VirtualMachineSpec → ℕ
vcpus_of s = s.cpu.max_vcpus

abbrev pub memory_of : VirtualMachineSpec → ℕ
memory_of s = unwrap_or s.memory.max_size_mib s.memory.size_mib

-- `SUM(size_bytes)` over the disks of one spec.
abbrev pub spec_bytes : List DiskSpec → ℕ
spec_bytes [] = 0
spec_bytes (d ∷ ds) = unwrap_or d.size_bytes 0 + spec_bytes ds

abbrev pub disks_of : VirtualMachineSpec → ℕ
disks_of s = spec_bytes s.disks

unfoldable pub usage_in : ℕ → Database → Amounts
usage_in project db = record {
  vms = pos (sum_vms one project db.virtual_machines);
  vcpus = pos (sum_vms vcpus_of project db.virtual_machines);
  memory_mib = pos (sum_vms memory_of project db.virtual_machines);
  volumes = pos (sum_volumes one project db.volumes);
  storage_bytes =
      add_i64 (pos (sum_vms disks_of project db.virtual_machines))
        (pos (sum_volumes (λ size. size) project db.volumes));
}

-- `limits.dimensions().iter().all(|(_, l)| l.is_none())`.
abbrev pub is_unlimited : Limits → Bool
is_unlimited l =
    is_none l.max_vms
    && (is_none l.max_vcpus
        && (is_none l.max_memory_mib && (is_none l.max_volumes && is_none l.max_storage_bytes)))

abbrev pub admit_with : ℕ → Database → Amounts → Option Limits → Result Exceeded (Unit {0})
admit_with project db demand none = ok tt
admit_with project db demand (some limits) =
    if is_unlimited limits then ok tt else check limits (usage_in project db) demand

unfoldable pub admit : ℕ → Database → Amounts → Result Exceeded (Unit {0})
admit project db demand = admit_with project db demand (db.quotas project)

-- store.rs, `insert_vm_with_id`: admission and the insertion in one transaction, which holds the project's row.
unfoldable pub insert_vm_with_id :
    ℕ → ℕ → VirtualMachineSpec → Database → Result Exceeded (Unit {0}) × Database
insert_vm_with_id id project spec db =
    let verdict = admit project db (of_vm spec) in
    (
      verdict,
      if is_ok verdict
          then record db {
            virtual_machines =
                record { id = id; project = project; spec = spec } ∷ db.virtual_machines;
          }
          else db,
    )

abbrev pub find_vm : ℕ → List VmRow → Option VmRow
find_vm id [] = none
find_vm id (row ∷ rows) = let rest = find_vm id rows in if row.id == id then some row else rest

abbrev pub set_spec : ℕ → VirtualMachineSpec → List VmRow → List VmRow
set_spec id spec [] = []
set_spec id spec (row ∷ rows) =
    (if row.id == id then record row { spec = spec } else row) ∷ set_spec id spec rows

-- `UPDATE ... RETURNING`, once the edit is admitted: a row that is gone by then gives `none`.
abbrev pub update_spec : ℕ → VirtualMachineSpec → Database → Option VmRow × Database
update_spec id spec db =
    let rows = set_spec id spec db.virtual_machines in
    (find_vm id rows, record db { virtual_machines = rows })

abbrev pub when_admitted :
    Result Exceeded (Unit {0})
    → (Option VmRow × Database)
    → Database
    → Result Exceeded (Option VmRow) × Database
when_admitted (ok _) (row, db') db = (ok row, db')
when_admitted (err e) _ db = (err e, db)

-- store.rs, `write_spec`, after its first statement returned the row `existing`; `admit` is what takes
-- the lock on the project's row.
unfoldable pub write_spec_after :
    VmRow → ℕ → VirtualMachineSpec → Database → Result Exceeded (Option VmRow) × Database
write_spec_after existing id spec db =
    when_admitted (admit existing.project db (delta (of_vm existing.spec) (of_vm spec)))
      (update_spec id spec db) db

-- Without other transactions in between. `none` is a VM that is not there.
unfoldable pub write_spec :
    ℕ → VirtualMachineSpec → Database → Result Exceeded (Option VmRow) × Database
unfolding write_spec_after
write_spec id spec db = elim (find_vm id db.virtual_machines) [
  | none ↦ (ok none, db)
  | some existing ↦ write_spec_after existing id spec db
]
