-- ===== src/Examples/Specs.antt =====
-- A VM's specification: two processors, 2 GiB, and one disk with a firmware boot.
use vquasar.Model.Validation.Rules.{memory_limit_bypassed, IsValid, validate_iff}
use vquasar.Model.Validation.{
  validate, validate_shape, validate_sizes, validate_boot, validate_paths, validate_microvm,
}
use vquasar.Base.{refl, none, some, [], ◌∷◌, false, ◌≡◌, ◌↔◌, arith}
use vquasar.Model.{
  VirtualMachineSpec, raw_image, DiskSpec, powered_on, firmware, standard, is_microvm,
}
use vquasar.Base.Result.{ok}

abbrev pub disk : DiskSpec
disk = record {
  path = "/var/lib/vq/root.raw";
  readonly = false;
  image_type = raw_image;
  source = none;
  size_bytes = some 10737418240;
  pool = some 9;
  policy = none;
  pinned_host = none;
}

abbrev pub spec : VirtualMachineSpec
spec = record {
  desired_power_state = powered_on;
  cpu = record { boot_vcpus = 2; max_vcpus = 4 };
  memory = record { size_mib = 2048; max_size_mib = none };
  boot = firmware "/usr/share/hypervisor-fw";
  disks = disk ∷ [];
  network_interfaces = [];
  placement = record { host = none };
  cloud_init = none;
  machine_type = standard;
}

accepted : validate spec ≡ ok tt
unfolding validate validate_shape validate_sizes validate_boot validate_paths validate_microvm
    is_microvm
accepted = refl

validate_example : (validate spec ≡ ok tt) ↔ IsValid spec
validate_example = validate_iff spec

memory_limit_example :
    validate (record spec { memory = record { size_mib = 1000000000000; max_size_mib = some 64 } })
    ≡ ok tt
memory_limit_example =
    memory_limit_bypassed spec 1000000000000 64 accepted (omega arith) (omega arith)
