-- ===== src/Paths.antt =====
-- The host paths of a specification: services/control/src/api/pathsafe.rs, which confines them, and
-- `provision_disk` of services/agent/src/storage.rs, which creates a disk's file. A path is its text, and
-- what the agent asks of other programs is a list of commands.
pub mod Confined
pub mod Source
use vquasar.Base.{
  List, none, some, true, false, Bool, Option, if◌then◌else◌, not, ℕ, any, str_eq, ◌&&◌, ◌+◌, ◌==◌,
  ◌||◌, ltb,
}
use vquasar.Base.Result.{Result, ok, err, ◌>>◌, refuse_if}
use vquasar.Model.{
  VirtualMachineSpec, DiskSpec, BootSpec, direct_kernel, firmware, raw_image, qcow2, preallocation,
  DiskImageType, StoragePolicy,
}
use Prim.Native.Char.{Char, code}
use Prim.Native.String.{String, [], ◌∷◌}

-- `std::path::Component` on Unix.
pub data Component : Type 0 where
  root_dir : Component
  cur_dir : Component
  parent_dir : Component
  normal : String → Component

abbrev prepend : Char → List String → List String
prepend c List.[] = List.◌∷◌ (c ∷ []) List.[]
prepend c (List.◌∷◌ t ts) = List.◌∷◌ (c ∷ t) ts

-- The texts between the slashes.
unfoldable pub split_slash : String → List String
split_slash [] = List.◌∷◌ [] List.[]
split_slash (c ∷ s) =
    let rest = split_slash s in if code c == 47 then List.◌∷◌ [] rest else prepend c rest

-- Empty parts and `.` are passed over.
abbrev part : String → List Component → List Component
part s rest =
    if str_eq s "" || str_eq s "."
    then rest
    else if str_eq s ".."
    then List.◌∷◌ parent_dir rest
    else List.◌∷◌ (normal s) rest

abbrev parts : List String → List Component
parts List.[] = List.[]
parts (List.◌∷◌ s ss) = part s (parts ss)

-- A relative path keeps a `.` that it starts with.
abbrev relative_parts : List String → List Component
relative_parts List.[] = List.[]
relative_parts (List.◌∷◌ s ss) =
    if str_eq s "." then List.◌∷◌ cur_dir (parts ss) else part s (parts ss)

unfoldable pub is_absolute : String → Bool
is_absolute [] = false
is_absolute (c ∷ s) = code c == 47

unfoldable pub components : String → List Component
components path =
    if is_absolute path
    then List.◌∷◌ root_dir (parts (split_slash path))
    else relative_parts (split_slash path)

abbrev pub same_component : Component → Component → Bool
same_component root_dir root_dir = true
same_component cur_dir cur_dir = true
same_component parent_dir parent_dir = true
same_component (normal s) (normal t) = str_eq s t
same_component _ _ = false

-- `Path::starts_with`.
abbrev pub starts_with : List Component → List Component → Bool
starts_with path List.[] = true
starts_with List.[] (List.◌∷◌ r rs) = false
starts_with (List.◌∷◌ c cs) (List.◌∷◌ r rs) = same_component c r && starts_with cs rs

abbrev pub is_dots : Component → Bool
is_dots root_dir = false
is_dots cur_dir = true
is_dots parent_dir = true
is_dots (normal s) = false

-- Which path an error names.
pub data What : Type 0 where
  boot_kernel boot_initramfs boot_firmware : What
  disk_path : ℕ → What

pub data PathError : Type 0 where
  not_absolute dots outside : What → PathError

unfoldable pub ensure_within : String → List String → What → Result PathError (Unit {0})
ensure_within path roots what =
    refuse_if (not (is_absolute path)) (not_absolute what)
    >> (refuse_if (any is_dots (components path)) (dots what)
        >> refuse_if (not (any (λ r. starts_with (components path) (components r)) roots))
            (outside what))

abbrev pub ensure_optional : Option String → List String → What → Result PathError (Unit {0})
ensure_optional none roots what = ok tt
ensure_optional (some path) roots what = ensure_within path roots what

abbrev pub ensure_boot : BootSpec → List String → Result PathError (Unit {0})
ensure_boot (direct_kernel kernel initramfs cmdline) roots =
    ensure_within kernel roots boot_kernel >> ensure_optional initramfs roots boot_initramfs
ensure_boot (firmware path) roots = ensure_within path roots boot_firmware

-- The loop over the disks, from the index `i` on.
abbrev pub ensure_disks : List DiskSpec → List String → ℕ → Result PathError (Unit {0})
ensure_disks List.[] roots i = ok tt
ensure_disks (List.◌∷◌ disk disks) roots i =
    ensure_within disk.path roots (disk_path i) >> ensure_disks disks roots (i + 1)

unfoldable pub ensure_spec_within : VirtualMachineSpec → List String → Result PathError (Unit {0})
ensure_spec_within spec roots = ensure_boot spec.boot roots >> ensure_disks spec.disks roots 0

-- What the agent asks of the file system, `cp` and `qemu-img`.
pub data Command : Type 0 where
  create_parent : (path : String) → Command
  create : (format : String) (preallocation : Option String) (path : String) (size : ℕ) → Command
  convert : (source_format source path : String) → Command
  copy : (source path : String) → Command
  resize : (format : Option String) (path : String) (size : ℕ) → Command

pub data StorageError : Type 0 where
  blank_without_size : StorageError

abbrev resize_format : DiskImageType → Option String
resize_format raw_image = some "raw"
resize_format qcow2 = none

abbrev format_name : DiskImageType → String
format_name raw_image = "raw"
format_name qcow2 = "qcow2"

abbrev grown : DiskImageType → String → Option ℕ → List Command
grown image path none = List.[]
grown image path (some size) = List.◌∷◌ (resize (resize_format image) path size) List.[]

abbrev grown_if_less : DiskImageType → String → ℕ → Option ℕ → List Command
grown_if_less image path virtual_size none = List.[]
grown_if_less image path virtual_size (some target) =
    if ltb virtual_size target
    then List.◌∷◌ (resize (resize_format image) path target) List.[]
    else List.[]

abbrev preallocation_of : Option StoragePolicy → Option String
preallocation_of none = none
preallocation_of (some p) = preallocation p

abbrev blank_disk : DiskSpec → Option ℕ → Result StorageError (List Command)
blank_disk disk none = err blank_without_size
blank_disk disk (some size) = ok (
    List.◌∷◌ (create_parent disk.path) (
      List.◌∷◌ (create (format_name disk.image_type) (preallocation_of disk.policy) disk.path size)
        List.[]))

abbrev from_source : DiskImageType → String → String → String → Command
from_source qcow2 source_format source path = convert source_format source path
from_source raw_image source_format source path = copy source path

abbrev new_disk : DiskSpec → String → Option String → Result StorageError (List Command)
new_disk disk source_format none = blank_disk disk disk.size_bytes
new_disk disk source_format (some source) = ok (
    List.◌∷◌ (create_parent disk.path) (
      List.◌∷◌ (from_source disk.image_type source_format source disk.path)
        (grown disk.image_type disk.path disk.size_bytes)))

-- The commands for one disk, if each succeeds: whether its file exists, its size if so, and the format of
-- its source as `qemu-img` detects it.
unfoldable pub provision_disk : Bool → ℕ → String → DiskSpec → Result StorageError (List Command)
provision_disk true virtual_size source_format disk =
    ok (grown_if_less disk.image_type disk.path virtual_size disk.size_bytes)
provision_disk false virtual_size source_format disk = new_disk disk source_format disk.source
