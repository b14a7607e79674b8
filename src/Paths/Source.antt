-- ===== src/Paths/Source.antt =====
-- The one host path of a specification that nothing confines.
use vquasar.Paths.{
  ensure_spec_within, ensure_disks, ensure_boot, provision_disk, Command, copy, ensure_within,
  disk_path,
}
use vquasar.Base.{[], ◌∷◌, some, false, refl, String, List, map, ℕ, Memᴰ, ◌≡◌, ap, ◌+◌}
use vquasar.Base.Result.{ok, ◌>>◌}
use vquasar.Model.{raw_image, VirtualMachineSpec, DiskSpec}

abbrev pub with_source : String → DiskSpec → DiskSpec
with_source source d = record d { source = some source }

abbrev pub with_sources : String → VirtualMachineSpec → VirtualMachineSpec
with_sources source spec = record spec { disks = map (with_source source) spec.disks }

disks_lem :
    (source : String) (disks : List DiskSpec) (roots : List String) (i : ℕ)
    → ensure_disks (map (with_source source) disks) roots i ≡ ensure_disks disks roots i
disks_lem source [] roots i = refl
disks_lem source (d ∷ ds) roots i =
    ap (λ rest. ensure_within d.path roots (disk_path i) >> rest)
      (disks_lem source ds roots (i + 1))

-- ensure_spec_within answers for a specification with any source for its disks as for the
-- specification itself, and provision_disk then copies that source to the path of a raw disk whose
-- file does not exist.
pub source_not_confined :
    (spec : VirtualMachineSpec) (roots : List String) (source : String) (d : DiskSpec)
    (virtual_size : ℕ) (source_format : String)
    → Memᴰ d spec.disks
    → d.image_type ≡ raw_image
    → (ensure_spec_within (with_sources source spec) roots ≡ ensure_spec_within spec roots)
      × ((commands : List Command) × (provision_disk false virtual_size source_format
              (with_source source d)
            ≡ ok commands)
          × Memᴰ (copy source d.path) commands)
unfolding ensure_spec_within provision_disk
source_not_confined spec roots source d virtual_size source_format m raw = (
  ap (λ rest. ensure_boot spec.boot roots >> rest) (disks_lem source spec.disks roots 0),
  (_, refl, Memᴰ.tail (Memᴰ.head (rw raw refl))),
)
