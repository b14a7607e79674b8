-- ===== src/Quota/Usage.antt =====
-- The usage of a project, before and after a VM is created.
use native.Mathlib.Nat.{add_assoc}
use vquasar.Quota.Check.{FitsIn, Fits, check_cases}
use vquasar.Model.{VirtualMachineSpec, DiskSpec}
use vquasar.Quota.{
  Limits, disk_bytes, Amounts, VirtualMachineSpec, Database, clamp_i64, spec_bytes, sum_vms, one,
  vcpus_of, memory_of, disks_of, sum_volumes, of_vm, add_disk, usage_in, insert_vm_with_id, admit,
  VmRow, dimensions, is_unlimited, Exceeded,
}
use vquasar.Base.{
  [], ◌∷◌, refl, none, some, inl, inr, Option, ℕ, List, ◌<◌, ◌+◌, ◌^◌, ◌≡◌, arith, unwrap_or, ◌∙◌,
  Bool-cases, ap, is_none, true, All, ◌==◌, ==_iff, sym, subst,
}
use vquasar.Base.Result.{ok, err, is_ok, Result}
use vquasar.Base.Int.{pos, add_i64, wrap_i64, ℤ, ◌+ℤ◌, ◌≤ℤ◌}

abbrev pub WithinIn : Option ℤ → ℤ → Type 0
WithinIn none used = Unit
WithinIn (some limit) used = used ≤ℤ limit

-- No dimension is in use past its limit.
pub record IsWithin (l : Limits) (u : Amounts) : Type 0 where
  pub vms : WithinIn l.max_vms u.vms
  pub vcpus : WithinIn l.max_vcpus u.vcpus
  pub memory_mib : WithinIn l.max_memory_mib u.memory_mib
  pub volumes : WithinIn l.max_volumes u.volumes
  pub storage_bytes : WithinIn l.max_storage_bytes u.storage_bytes

-- The sums of the project, with the new VM, are `i64` values.
pub record IsSmall (project : ℕ) (spec : VirtualMachineSpec) (db : Database) : Type 0 where
  pub vms : 1 + sum_vms one project db.virtual_machines < 2 ^ 63
  pub vcpus : vcpus_of spec + sum_vms vcpus_of project db.virtual_machines < 2 ^ 63
  pub memory_mib : memory_of spec + sum_vms memory_of project db.virtual_machines < 2 ^ 63
  pub storage_bytes :
      disks_of spec
        + sum_vms disks_of project db.virtual_machines
        + sum_volumes (λ size. size) project db.volumes
      < 2 ^ 63

add_pos : (a b : ℕ) → a + b < 2 ^ 63 → add_i64 (pos a) (pos b) ≡ pos (a + b)
unfolding add_i64 wrap_i64 ◌+ℤ◌
add_pos a b h = ground arith

clamp_lem : (b : ℕ) → b < 2 ^ 63 → clamp_i64 b ≡ pos b
unfolding wrap_i64
clamp_lem b h = ground arith

add_clamped :
    (b n : ℕ) (rest : ℤ) → rest ≡ pos n → b + n < 2 ^ 63 → add_i64 (clamp_i64 b) rest ≡ pos (b + n)
add_clamped b n rest e h =
    let small : b < 2 ^ 63 = omega arith in rw (clamp_lem b small, e) (add_pos b n h)

add_disk_lem :
    (o : Option ℕ) (n : ℕ) (rest : ℤ)
    → rest ≡ pos n
    → unwrap_or o 0 + n < 2 ^ 63
    → add_disk o rest ≡ pos (unwrap_or o 0 + n)
add_disk_lem none n rest e h = e ∙ ap pos (omega arith)
add_disk_lem (some b) n rest e h = add_clamped b n rest e h

disk_bytes_lem : (ds : List DiskSpec) → spec_bytes ds < 2 ^ 63 → disk_bytes ds ≡ pos (spec_bytes ds)
unfolding disk_bytes
disk_bytes_lem [] h = refl
disk_bytes_lem (d ∷ ds) h =
    add_disk_lem d.size_bytes (spec_bytes ds) (disk_bytes ds) (disk_bytes_lem ds (omega arith)) h

within_add :
    (l : Option ℤ) (a b : ℕ)
    → a + b < 2 ^ 63
    → FitsIn l (pos a) (pos b)
    → WithinIn l (pos a)
    → WithinIn l (pos (b + a))
within_add none a b small f w = tt
within_add (some l) a b small (inl none_asked) w = omega arith
within_add (some l) a b small (inr fits) w =
    let fits' = rw (add_pos a b small) at fits in omega arith

-- The amounts of a VM are what its row adds to the sums.
of_vm_lem :
    (spec : VirtualMachineSpec)
    → memory_of spec < 2 ^ 63
    → disks_of spec < 2 ^ 63
    → of_vm spec ≡ record {
      vms = pos 1;
      vcpus = pos (vcpus_of spec);
      memory_mib = pos (memory_of spec);
      volumes = pos 0;
      storage_bytes = pos (disks_of spec);
    }
unfolding of_vm
of_vm_lem spec m d = rw (clamp_lem (memory_of spec) m, disk_bytes_lem spec.disks d)

FitsIn-unlimited : (l : Option ℤ) (u w : ℤ) → is_none l ≡ true → FitsIn l u w
FitsIn-unlimited none u w h = tt
FitsIn-unlimited (some l) u w h = cc

unlimited-Fits : (l : Limits) (u d : Amounts) → is_unlimited l ≡ true → All Fits (dimensions l u d)
unfolding dimensions
unlimited-Fits l u d h = (
  FitsIn-unlimited l.max_vms _ _ (ground arith),
  (
    FitsIn-unlimited l.max_vcpus _ _ (ground arith),
    (
      FitsIn-unlimited l.max_memory_mib _ _ (ground arith),
      (
        FitsIn-unlimited l.max_volumes _ _ (ground arith),
        (FitsIn-unlimited l.max_storage_bytes _ _ (ground arith), tt),
      ),
    ),
  ),
)

-- What an admission says of a project with a quota.
pub admit-Fits :
    (project : ℕ) (db : Database) (demand : Amounts) (limits : Limits)
    → db.quotas project ≡ some limits
    → is_ok (admit project db demand) ≡ true
    → All Fits (dimensions limits (usage_in project db) demand)
admit-Fits project db demand limits q h = elim (Bool-cases (is_unlimited limits)) [
  | inl free ↦ unlimited-Fits limits (usage_in project db) demand free
  | inr capped ↦ elim (check_cases limits (usage_in project db) demand) [
    | inl (e, fits) ↦ fits
    | inr (x, e, first) ↦
        let seen : admit project db demand ≡ err x = unfold admit in rw (q, capped) e in
        absurd (refused_is_not_ok (admit project db demand) x seen h)
  ]
]
  where
    refused_is_not_ok :
        (r : Result Exceeded (Unit {0})) (x : Exceeded) → r ≡ err x → is_ok r ≡ true → ⊥
    refused_is_not_ok (ok u) x e h = cc
    refused_is_not_ok (err y) x e h = cc

-- The usage of the project with one more VM.
usage_with :
    (row : VmRow) (db : Database)
    → IsSmall row.project row.spec db
    → usage_in row.project (record db { virtual_machines = row ∷ db.virtual_machines }) ≡ record {
      vms = pos (1 + sum_vms one row.project db.virtual_machines);
      vcpus = pos (vcpus_of row.spec + sum_vms vcpus_of row.project db.virtual_machines);
      memory_mib = pos (memory_of row.spec + sum_vms memory_of row.project db.virtual_machines);
      volumes = (usage_in row.project db).volumes;
      storage_bytes = pos (
          disks_of row.spec
          + (sum_vms disks_of row.project db.virtual_machines
              + sum_volumes (λ size. size) row.project db.volumes));
    }
unfolding usage_in
usage_with row db small =
    let self : (row.project == row.project) ≡ true = (==_iff row.project row.project).1 refl in
    let sum =
      add_pos (disks_of row.spec + sum_vms disks_of row.project db.virtual_machines)
        (sum_volumes (λ size. size) row.project db.volumes) small.storage_bytes in
    rw (self, sum, add_assoc)

-- Demand that fits, added to a usage within the limits, is within them.
IsWithin-Fits :
    (project : ℕ) (db : Database) (limits : Limits) (v m d : ℕ)
    → 1 + sum_vms one project db.virtual_machines < 2 ^ 63
    → v + sum_vms vcpus_of project db.virtual_machines < 2 ^ 63
    → m + sum_vms memory_of project db.virtual_machines < 2 ^ 63
    → d
        + sum_vms disks_of project db.virtual_machines
        + sum_volumes (λ size. size) project db.volumes
      < 2 ^ 63
    → IsWithin limits (usage_in project db)
    → All Fits (
        dimensions limits (usage_in project db) (record {
          vms = pos 1;
          vcpus = pos v;
          memory_mib = pos m;
          volumes = pos 0;
          storage_bytes = pos d;
        }))
    → IsWithin limits (record {
      vms = pos (1 + sum_vms one project db.virtual_machines);
      vcpus = pos (v + sum_vms vcpus_of project db.virtual_machines);
      memory_mib = pos (m + sum_vms memory_of project db.virtual_machines);
      volumes = (usage_in project db).volumes;
      storage_bytes = pos (
          d
          + (sum_vms disks_of project db.virtual_machines
              + sum_volumes (λ size. size) project db.volumes));
    })
unfolding dimensions usage_in
IsWithin-Fits project db limits v m d s₁ s₂ s₃ s₄ within (f₁, (f₂, (f₃, (f₄, (f₅, _))))) =
    let disks = sum_vms disks_of project db.virtual_machines in
    let volumes = sum_volumes (λ size. size) project db.volumes in
    let total : disks + volumes < 2 ^ 63 = omega arith in
    let large : disks + volumes + d < 2 ^ 63 = omega arith in
    let total_lem = add_pos disks volumes total in
    record {
      vms = within_add limits.max_vms _ 1 (omega arith) f₁ within.vms;
      vcpus = within_add limits.max_vcpus _ v (omega arith) f₂ within.vcpus;
      memory_mib = within_add limits.max_memory_mib _ m (omega arith) f₃ within.memory_mib;
      volumes = within.volumes;
      storage_bytes =
          within_add limits.max_storage_bytes (disks + volumes) d large (rw total_lem at f₅)
            (rw total_lem at within.storage_bytes);
    }

-- One more VM keeps every limit, when the check admitted it.
IsWithin-with :
    (row : VmRow) (db : Database) (limits : Limits)
    → IsSmall row.project row.spec db
    → IsWithin limits (usage_in row.project db)
    → All Fits (dimensions limits (usage_in row.project db) (of_vm row.spec))
    → IsWithin limits
        (usage_in row.project (record db { virtual_machines = row ∷ db.virtual_machines }))
unfolding dimensions usage_in
IsWithin-with row db limits small within fits =
    let small_memory : memory_of row.spec < 2 ^ 63 = let h = small.memory_mib in omega arith in
    let small_disks : disks_of row.spec < 2 ^ 63 = let h = small.storage_bytes in omega arith in
    let fits' = rw (of_vm_lem row.spec small_memory small_disks) at fits in
    subst (IsWithin limits) (sym (usage_with row db small)) (
      IsWithin-Fits row.project db limits (vcpus_of row.spec) (memory_of row.spec)
        (disks_of row.spec) small.vms small.vcpus small.memory_mib small.storage_bytes within fits')

-- In a project with a quota, whose sums with the VM are `i64` values, a call of `insert_vm_with_id`
-- leaves every dimension within its limit, if it was within it before.
pub insert_vm_with_id-IsWithin :
    (id project : ℕ) (spec : VirtualMachineSpec) (db : Database) (limits : Limits)
    → db.quotas project ≡ some limits
    → IsSmall project spec db
    → IsWithin limits (usage_in project db)
    → IsWithin limits (usage_in project (insert_vm_with_id id project spec db).1)
insert_vm_with_id-IsWithin id project spec db limits q small within =
    elim (Bool-cases (is_ok (admit project db (of_vm spec)))) [
      | inl admitted ↦
          unfold insert_vm_with_id in
          rw admitted (
            IsWithin-with (record { id = id; project = project; spec = spec }) db limits small
              within (admit-Fits project db (of_vm spec) limits q admitted))
      | inr refused ↦ unfold insert_vm_with_id in rw refused within
    ]
