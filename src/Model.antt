-- ===== src/Model.antt =====
-- crates/model/src/vm.rs: a virtual machine's desired and observed state. Paths and host names are
-- `String`, identifiers are the number that a UUID stands for, and the serde attributes are left out.
pub mod Validation
pub mod Meta
pub mod Mac
use vquasar.Base.{
  ℕ, ◌+◌, ◌-◌, ◌*◌, ◌%◌, ◌^◌, String, Bool, true, false, Option, none, some, List, ltb, ◌==◌,
  opt_eq, not, ◌||◌, ◌&&◌, is_some, if◌then◌else◌,
}
use vquasar.Base.Result.{Result, ok, err, ◌>>◌, ◌>>=◌, refuse_if}
use vquasar.Model.Meta.{Metadata, new_metadata}

abbrev pub u64 : ℕ → ℕ
u64 n = n % 2 ^ 64

pub data MachineType : Type 0 where
  standard micro_vm : MachineType

unfoldable pub is_microvm : MachineType → Bool
is_microvm micro_vm = true
is_microvm standard = false

pub data VmPhase : Type 0 where
  pending scheduling creating stopped starting running stopping migrating failed deleting : VmPhase

unfoldable pub is_settled : VmPhase → Bool
is_settled stopped = true
is_settled running = true
is_settled failed = true
is_settled _ = false

pub record VirtualMachineStatus : Type 0 where
  pub phase : VmPhase
  pub host_id : Option ℕ
  pub observed_generation : ℕ
  pub message : Option String
  pub ip_address : Option String

unfoldable pub pending_status : VirtualMachineStatus
pending_status = record {
  phase = pending;
  host_id = none;
  observed_generation = 0;
  message = none;
  ip_address = none;
}

pub data DesiredPowerState : Type 0 where
  powered_on powered_off : DesiredPowerState

pub record CpuSpec : Type 0 where
  pub boot_vcpus : ℕ
  pub max_vcpus : ℕ

pub record MemorySpec : Type 0 where
  pub size_mib : ℕ
  pub max_size_mib : Option ℕ

unfoldable pub size_bytes : MemorySpec → ℕ
size_bytes m = u64 (u64 (m.size_mib * 1024) * 1024)

unfoldable pub hotplug_bytes : MemorySpec → Option ℕ
hotplug_bytes m = elim m.max_size_mib [
  | none ↦ none
  | some max ↦
      if ltb m.size_mib max then some (u64 (u64 ((max - m.size_mib) * 1024) * 1024)) else none
]

pub data BootSpec : Type 0 where
  direct_kernel : (kernel : String) (initramfs cmdline : Option String) → BootSpec
  firmware : String → BootSpec

pub data DiskCache : Type 0 where
  writeback direct : DiskCache

pub data Allocation : Type 0 where
  thin thick : Allocation

pub record StoragePolicy : Type 0 where
  pub cache : DiskCache
  pub allocation : Allocation
  pub bandwidth_bytes_per_sec : Option ℕ
  pub iops : Option ℕ

abbrev pub default_policy : StoragePolicy
default_policy = record {
  cache = writeback;
  allocation = thin;
  bandwidth_bytes_per_sec = none;
  iops = none;
}

abbrev is_writeback : DiskCache → Bool
is_writeback writeback = true
is_writeback direct = false

abbrev is_thin : Allocation → Bool
is_thin thin = true
is_thin thick = false

-- `*self == Self::default()`, field by field.
unfoldable pub is_default : StoragePolicy → Bool
is_default p =
    is_writeback p.cache
    && (is_thin p.allocation && (opt_eq p.bandwidth_bytes_per_sec none && opt_eq p.iops none))

unfoldable pub preallocation : StoragePolicy → Option String
preallocation p = elim p.allocation [ thin ↦ none | thick ↦ some "falloc" ]

pub data StoragePolicyError : Type 0 where
  zero_limit : String → StoragePolicyError

unfoldable pub validate_policy : StoragePolicy → Result StoragePolicyError (Unit {0})
validate_policy p = do
  refuse_if (opt_eq p.bandwidth_bytes_per_sec (some 0)) (zero_limit "bandwidth_bytes_per_sec")
  refuse_if (opt_eq p.iops (some 0)) (zero_limit "iops")
  ok tt

pub data DiskImageType : Type 0 where
  raw_image qcow2 : DiskImageType

pub record DiskSpec : Type 0 where
  pub path : String
  pub readonly : Bool
  pub image_type : DiskImageType
  pub source : Option String
  pub size_bytes : Option ℕ
  pub pool : Option ℕ
  pub policy : Option StoragePolicy
  pub pinned_host : Option ℕ

unfoldable pub raw : String → DiskSpec
raw path = record {
  path = path;
  readonly = false;
  image_type = raw_image;
  source = none;
  size_bytes = none;
  pool = none;
  policy = none;
  pinned_host = none;
}

unfoldable pub provisioned : String → DiskImageType → String → Option ℕ → DiskSpec
provisioned path image_type source size_bytes = record {
  path = path;
  readonly = false;
  image_type = image_type;
  source = some source;
  size_bytes = size_bytes;
  pool = none;
  policy = none;
  pinned_host = none;
}

unfoldable pub blank : String → DiskImageType → ℕ → DiskSpec
blank path image_type size_bytes = record {
  path = path;
  readonly = false;
  image_type = image_type;
  source = none;
  size_bytes = some size_bytes;
  pool = none;
  policy = none;
  pinned_host = none;
}

unfoldable pub in_pool : DiskSpec → Option ℕ → DiskSpec
in_pool d pool = record d { pool = pool }

unfoldable pub needs_provisioning : DiskSpec → Bool
needs_provisioning d = is_some d.source || is_some d.size_bytes

pub record CloudInitSpec : Type 0 where
  pub hostname : Option String
  pub ssh_authorized_keys : List String
  pub password : Option String
  pub user_data : Option String

pub record NetworkInterfaceSpec : Type 0 where
  pub network_id : ℕ
  pub mac : Option String
  pub addresses : List String
  pub security_groups : List ℕ

pub record PlacementSpec : Type 0 where
  pub host : Option ℕ

pub record VirtualMachineSpec : Type 0 where
  pub desired_power_state : DesiredPowerState
  pub cpu : CpuSpec
  pub memory : MemorySpec
  pub boot : BootSpec
  pub disks : List DiskSpec
  pub network_interfaces : List NetworkInterfaceSpec
  pub placement : PlacementSpec
  pub cloud_init : Option CloudInitSpec
  pub machine_type : MachineType

pub record VirtualMachine : Type 0 where
  pub id : ℕ
  pub meta : Metadata
  pub spec : VirtualMachineSpec
  pub status : VirtualMachineStatus

-- The identifier is the caller's, in place of a random UUID.
unfoldable pub new_vm : ℕ → String → VirtualMachineSpec → ℕ → VirtualMachine
unfolding pending_status new_metadata
new_vm id name spec now = record {
  id = id;
  meta = new_metadata name now;
  spec = spec;
  status = pending_status;
}

unfoldable pub needs_reconcile : VirtualMachine → Bool
needs_reconcile vm = not (vm.meta.generation == vm.status.observed_generation)
