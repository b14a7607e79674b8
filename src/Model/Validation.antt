-- ===== src/Model/Validation.antt =====
-- crates/model/src/validation.rs: the rules that a spec meets before it is persisted.
pub mod Rules
use vquasar.Base.{
  ℕ, suc, ◌+◌, ◌*◌, ◌≤◌, ◌<◌, String, Bool, true, false, Option, none, some, List, [], ◌∷◌, ltb,
  length, str_eq, not, ◌&&◌, is_some, unwrap_or, if◌then◌else◌,
}
use vquasar.Base.Result.{Result, ok, err, ◌>>◌, ◌>>=◌, refuse_if}
use vquasar.Model.{
  VirtualMachineSpec, BootSpec, direct_kernel, firmware, DiskSpec, is_microvm, CpuSpec, MemorySpec,
}

pub data ValidationError : Type 0 where
  zero_boot_vcpus : ValidationError
  max_vcpus_below_boot : (boot max : ℕ) → ValidationError
  memory_too_small : (min got : ℕ) → ValidationError
  empty_kernel_path empty_firmware_path empty_disk_path : ValidationError
  microvm_requires_direct_kernel microvm_forbids_cloud_init : ValidationError
  too_many_vcpus : (got max : ℕ) → ValidationError
  memory_too_large : (got max : ℕ) → ValidationError
  too_many_disks : (got max : ℕ) → ValidationError
  too_many_nics : (got max : ℕ) → ValidationError
  disk_too_large : (index got max : ℕ) → ValidationError

abbrev pub min_memory_mib : ℕ
min_memory_mib = 64

abbrev pub max_vcpus_limit : ℕ
max_vcpus_limit = 512

abbrev pub max_memory_mib : ℕ
max_memory_mib = 4 * 1024 * 1024

abbrev pub max_disks : ℕ
max_disks = 64

abbrev pub max_nics : ℕ
max_nics = 16

abbrev pub max_disk_bytes : ℕ
max_disk_bytes = 64 * 1024 * 1024 * 1024 * 1024

abbrev pub Check : Type 0
Check = Result ValidationError (Unit {0})

-- The first four tests, and those of the memory.
unfoldable pub validate_shape : VirtualMachineSpec → Check
validate_shape s = do
  refuse_if (ltb s.cpu.boot_vcpus 1) zero_boot_vcpus
  refuse_if (ltb s.cpu.max_vcpus s.cpu.boot_vcpus)
      (max_vcpus_below_boot s.cpu.boot_vcpus s.cpu.max_vcpus)
  refuse_if (ltb max_vcpus_limit s.cpu.max_vcpus) (too_many_vcpus s.cpu.max_vcpus max_vcpus_limit)
  refuse_if (ltb s.memory.size_mib min_memory_mib)
      (memory_too_small min_memory_mib s.memory.size_mib)
  let peak_memory = unwrap_or s.memory.max_size_mib s.memory.size_mib
  refuse_if (ltb max_memory_mib peak_memory) (memory_too_large peak_memory max_memory_mib)
  refuse_if (ltb max_disks (length s.disks)) (too_many_disks (length s.disks) max_disks)
  refuse_if (ltb max_nics (length s.network_interfaces))
      (too_many_nics (length s.network_interfaces) max_nics)
  ok tt

-- The loop over the disks' sizes, from an index on.
unfoldable pub validate_sizes : ℕ → List DiskSpec → Check
validate_sizes index [] = ok tt
validate_sizes index (disk ∷ disks) =
    let rest = validate_sizes (index + 1) disks in
    elim disk.size_bytes [
      | none ↦ rest
      | some size ↦
          if ltb max_disk_bytes size then err (disk_too_large index size max_disk_bytes) else rest
    ]

unfoldable pub validate_boot : BootSpec → Check
validate_boot (direct_kernel kernel initramfs cmdline) =
    refuse_if (str_eq kernel "") empty_kernel_path
validate_boot (firmware path) = refuse_if (str_eq path "") empty_firmware_path

unfoldable pub validate_paths : List DiskSpec → Check
validate_paths [] = ok tt
validate_paths (disk ∷ disks) =
    let rest = validate_paths disks in if str_eq disk.path "" then err empty_disk_path else rest

abbrev pub is_direct_kernel : BootSpec → Bool
is_direct_kernel (direct_kernel kernel initramfs cmdline) = true
is_direct_kernel (firmware path) = false

unfoldable pub validate_microvm : VirtualMachineSpec → Check
validate_microvm s =
    if is_microvm s.machine_type
    then (do
      refuse_if (not (is_direct_kernel s.boot)) microvm_requires_direct_kernel
      refuse_if (is_some s.cloud_init) microvm_forbids_cloud_init
      ok tt)
    else ok tt

unfoldable pub validate : VirtualMachineSpec → Check
validate s = do
  validate_shape s
  validate_sizes 0 s.disks
  validate_boot s.boot
  validate_paths s.disks
  validate_microvm s
