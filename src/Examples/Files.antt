-- ===== src/Examples/Files.antt =====
-- A specification whose paths lie in the storage of the platform, and a key that does not.
use vquasar.Base.{[], ◌∷◌, none, false, refl, All, List, ◌≡◌, Memᴰ, String}
use vquasar.Base.Result.{ok}
use vquasar.Model.{raw_image, firmware, DiskSpec, VirtualMachineSpec}
use vquasar.Paths.{
  ensure_spec_within, provision_disk, copy, components, Command, ensure_within, split_slash,
  is_absolute,
}
use vquasar.Paths.Confined.{ensure_spec_within-IsConfined, IsConfined, boot_paths}
use vquasar.Paths.Source.{source_not_confined, with_source, with_sources}
use vquasar.Examples.Specs.{spec}

abbrev roots : List String
roots = "/var/lib/vquasar" ∷ []

abbrev disk : DiskSpec
disk = record {
  path = "/var/lib/vquasar/a.raw";
  readonly = false;
  image_type = raw_image;
  source = none;
  size_bytes = none;
  pool = none;
  policy = none;
  pinned_host = none;
}

abbrev stored : VirtualMachineSpec
stored = record spec { boot = firmware "/var/lib/vquasar/fw"; disks = disk ∷ [] }

accepted : ensure_spec_within stored roots ≡ ok tt
unfolding ensure_spec_within ensure_within components split_slash is_absolute
accepted = refl

ensure_spec_within-IsConfined_example :
    All (IsConfined roots) (boot_paths stored.boot)
    × All (λ d. IsConfined roots d.path) stored.disks
ensure_spec_within-IsConfined_example = ensure_spec_within-IsConfined stored roots accepted

source_not_confined_example :
    (ensure_spec_within (with_sources "/etc/vquasar/tls/agent.key" stored) roots
      ≡ ensure_spec_within stored roots)
    × ((commands : List Command) × (provision_disk false 0 "raw"
            (with_source "/etc/vquasar/tls/agent.key" disk)
          ≡ ok commands)
        × Memᴰ (copy "/etc/vquasar/tls/agent.key" "/var/lib/vquasar/a.raw") commands)
source_not_confined_example =
    source_not_confined stored roots "/etc/vquasar/tls/agent.key" disk 0 "raw" (Memᴰ.head refl) refl
