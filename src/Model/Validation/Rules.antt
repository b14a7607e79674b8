-- ===== src/Model/Validation/Rules.antt =====
-- What an accepted spec is.
use vquasar.Base.Int.{InI64, pos}
use vquasar.Base.Result.{ok, >>_ok_iff}
use vquasar.Model.Validation.{
  is_direct_kernel, max_disk_bytes, validate, validate_boot, validate_microvm, validate_paths,
  validate_shape, validate_sizes,
}
use vquasar.Base.{
  [], ◌∷◌, ◌≡◌, ◌≢◌, ◌↔◌, All, Option, ◌≤◌, unwrap_or, ℕ, ◌⊎◌, length, some, List, true, arith,
  none, ◌∷◌, eq_iff, ◌+◌, ◌*◌, refl,
}
use vquasar.Model.{
  size_bytes as mem_bytes, VirtualMachineSpec, BootSpec, direct_kernel, firmware, DiskSpec,
  micro_vm, is_microvm, ok,
}

abbrev pub SizeFits : Option ℕ → Type 0
SizeFits none = Unit
SizeFits (some size) = size ≤ max_disk_bytes

abbrev pub HasPath : BootSpec → Type 0
HasPath (direct_kernel kernel initramfs cmdline) = kernel ≢ ""
HasPath (firmware path) = path ≢ ""

pub record IsShaped (s : VirtualMachineSpec) : Type 0 where
  pub boots : 1 ≤ s.cpu.boot_vcpus
  pub ordered : s.cpu.boot_vcpus ≤ s.cpu.max_vcpus
  pub vcpus : s.cpu.max_vcpus ≤ 512
  pub floor : 64 ≤ s.memory.size_mib
  pub peak : unwrap_or s.memory.max_size_mib s.memory.size_mib ≤ 4194304
  pub disks : length s.disks ≤ 64
  pub nics : length s.network_interfaces ≤ 16

-- A microVM boots a kernel directly and has no cloud-init seed.
pub record IsMinimal (s : VirtualMachineSpec) : Type 0 where
  pub direct : is_direct_kernel s.boot ≡ true
  pub unseeded : s.cloud_init ≡ none

pub record IsValid (s : VirtualMachineSpec) : Type 0 where
  pub shaped : IsShaped s
  pub sizes : All (λ d. SizeFits d.size_bytes) s.disks
  pub boot : HasPath s.boot
  pub paths : All (λ d. d.path ≢ "") s.disks
  pub minimal : (s.machine_type ≢ micro_vm) ⊎ IsMinimal s

validate_shape_iff : (s : VirtualMachineSpec) → (validate_shape s ≡ ok tt) ↔ IsShaped s
unfolding validate_shape
validate_shape_iff s = ground arith

validate_sizes_iff :
    (i : ℕ) (ds : List DiskSpec)
    → (validate_sizes i ds ≡ ok tt) ↔ All (λ d. SizeFits d.size_bytes) ds
unfolding validate_sizes
validate_sizes_iff i [] = (λ _. tt, λ _. refl)
validate_sizes_iff i (d ∷ ds) = ground (arith, validate_sizes_iff (i + 1) ds)

validate_boot_iff : (b : BootSpec) → (validate_boot b ≡ ok tt) ↔ HasPath b
unfolding validate_boot
validate_boot_iff (direct_kernel k i c) = ground (arith, eq_iff k "")
validate_boot_iff (firmware p) = ground (arith, eq_iff p "")

validate_paths_iff : (ds : List DiskSpec) → (validate_paths ds ≡ ok tt) ↔ All (λ d. d.path ≢ "") ds
unfolding validate_paths
validate_paths_iff [] = (λ _. tt, λ _. refl)
validate_paths_iff (d ∷ ds) = ground (arith, validate_paths_iff ds, eq_iff d.path "")

validate_microvm_iff :
    (s : VirtualMachineSpec)
    → (validate_microvm s ≡ ok tt) ↔ ((s.machine_type ≢ micro_vm) ⊎ IsMinimal s)
unfolding validate_microvm is_microvm
validate_microvm_iff s = ground arith

-- `validate` accepts exactly the specs that keep every rule.
pub validate_iff : (s : VirtualMachineSpec) → (validate s ≡ ok tt) ↔ IsValid s
unfolding validate
validate_iff s = (
  λ h.
      let (shaped, h₁) = (>>_ok_iff (validate_shape s) _).0 h in
      let (sizes, h₂) = (>>_ok_iff (validate_sizes 0 s.disks) _).0 h₁ in
      let (boot, h₃) = (>>_ok_iff (validate_boot s.boot) _).0 h₂ in
      let (paths, minimal) = (>>_ok_iff (validate_paths s.disks) _).0 h₃ in
      record {
        shaped = (validate_shape_iff s).0 shaped;
        sizes = (validate_sizes_iff 0 s.disks).0 sizes;
        boot = (validate_boot_iff s.boot).0 boot;
        paths = (validate_paths_iff s.disks).0 paths;
        minimal = (validate_microvm_iff s).0 minimal;
      },
  λ v.
      rw
        (
          (validate_shape_iff s).1 v.shaped,
          (validate_sizes_iff 0 s.disks).1 v.sizes,
          (validate_boot_iff s.boot).1 v.boot,
          (validate_paths_iff s.disks).1 v.paths,
        )
        ((validate_microvm_iff s).1 v.minimal),
)

-- Where the hot-plug ceiling is not below the boot size, an accepted spec's memory is its exact number
-- of bytes and an `i64` holds it: neither product wraps around.
pub validated_memory :
    (s : VirtualMachineSpec)
    → validate s ≡ ok tt
    → s.memory.size_mib ≤ unwrap_or s.memory.max_size_mib s.memory.size_mib
    → (mem_bytes s.memory ≡ s.memory.size_mib * 1048576) × InI64 (pos (mem_bytes s.memory))
unfolding mem_bytes
validated_memory s h le =
    let peak = ((validate_iff s).0 h).shaped.peak in (omega arith, omega arith)

-- An accepted spec stays accepted with any boot size of 64 MiB or more, if its hot-plug ceiling is set
-- within the limit.
pub memory_limit_bypassed :
    (s : VirtualMachineSpec) (size ceiling : ℕ)
    → validate s ≡ ok tt
    → 64 ≤ size
    → ceiling ≤ 4194304
    → validate (record s { memory = record { size_mib = size; max_size_mib = some ceiling } })
      ≡ ok tt
memory_limit_bypassed s size ceiling h floor le =
    let v = (validate_iff s).0 h in
    (validate_iff _).1 (record {
      shaped = record {
        boots = v.shaped.boots;
        ordered = v.shaped.ordered;
        vcpus = v.shaped.vcpus;
        floor = floor;
        peak = le;
        disks = v.shaped.disks;
        nics = v.shaped.nics;
      };
      sizes = v.sizes;
      boot = v.boot;
      paths = v.paths;
      minimal = ground (arith, v.minimal);
    })
