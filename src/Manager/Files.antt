-- ===== src/Manager/Files.antt =====
-- services/agent/src/runtime.rs, and `prepare` with `ensure_seed` of services/agent/src/storage.rs. The
-- making of a disk's file and of a seed is one call each.
use Prim.Native.String.{String, ◌++◌ as ◌<>◌}
use vquasar.Base.{
  ℕ, zero, suc, ltb, Bool, true, Option, none, some, List, [], ◌∷◌, ◌++◌, map, any, str_eq, ◌&&◌,
  if◌then◌else◌,
}
use vquasar.Base.Action.{◌>>=◌, ◌>>◌, pure, raise, gets, modify, or_raise}
use vquasar.Model.{VirtualMachineSpec, DiskSpec, CloudInitSpec, raw_image, needs_provisioning}
use vquasar.Manager.{
  Outside, Agent, Manage, ⊤, ask, must, must_then, io, storage, on_dirs, create_vm_dir,
  remove_vm_dir as remove_call, open_record, write_record, provision_disk, make_seed, remove_seed,
  insert, remove, lookup, VmRecord, MigrationSettings,
}
use vquasar.Manager.Hypervisor.{with_dir}

-- The file is emptied when it is opened.
unfoldable pub store_record : Outside → VmRecord → Manage ⊤
store_record o r = do
  must_then o io (create_vm_dir r.id) (on_dirs (with_dir r.id))
  must_then o io (open_record r.id) (on_dirs (insert r.id none))
  must_then o io (write_record r.id) (on_dirs (insert r.id (some r)))

-- `tries` are left. A directory that is missing is as good as removed, in the answer of the call.
unfoldable pub remove_tries : Outside → ℕ → ℕ → Manage ⊤
remove_tries o id zero = pure tt
remove_tries o id (suc tries) = do
  done ← ask o (remove_call id)
  calls ← gets (λ s. s.calls)
  if done
      then modify (on_dirs (remove id))
      else if o.not_empty calls id && ltb 0 tries
      then remove_tries o id tries
      else raise io

unfoldable pub remove_vm_dir : Outside → ℕ → Manage ⊤
remove_vm_dir o id = remove_tries o id 5

unfoldable pub discover_vm_ids : Agent → List ℕ
discover_vm_ids s = map (λ d. d.0) s.dirs

abbrev pub joined : Option (Option VmRecord) → Option VmRecord
joined none = none
joined (some r) = r

unfoldable pub load_record : ℕ → Manage VmRecord
unfolding ◌>>=◌
load_record id = do found ← gets (λ s. joined (lookup id s.dirs)); or_raise io found

unfoldable pub seed_path : MigrationSettings → Outside → ℕ → String
seed_path m o id = m.shared_dir <> ("/seeds/" <> (o.uuid id <> ".iso"))

unfoldable pub seed_disk : String → DiskSpec
seed_disk path = record {
  path = path;
  readonly = true;
  image_type = raw_image;
  source = none;
  size_bytes = none;
  pool = none;
  policy = none;
  pinned_host = none;
}

unfoldable pub ensure_seed : MigrationSettings → Outside → ℕ → Manage DiskSpec
ensure_seed m o id = do
  calls ← gets (λ s. s.calls)
  (if o.seed_exists calls id then pure tt else must o storage (make_seed id))
  pure (seed_disk (seed_path m o id))

abbrev pub has_path : String → List DiskSpec → Bool
has_path path disks = any (λ d. str_eq d.path path) disks

abbrev pub with_disk : VirtualMachineSpec → DiskSpec → VirtualMachineSpec
with_disk spec seed =
    if has_path seed.path spec.disks then spec else record spec { disks = spec.disks ++ seed ∷ [] }

unfoldable pub provision_one : Outside → DiskSpec → Manage ⊤
provision_one o d = if needs_provisioning d then must o storage (provision_disk d) else pure tt

unfoldable pub provision_all : Outside → List DiskSpec → Manage ⊤
provision_all o [] = pure tt
provision_all o (d ∷ ds) = provision_one o d >> provision_all o ds

unfoldable pub add_seed :
    MigrationSettings
    → Outside
    → ℕ
    → VirtualMachineSpec
    → Option CloudInitSpec
    → Manage VirtualMachineSpec
add_seed m o id spec none = pure spec
add_seed m o id spec (some _) = ensure_seed m o id >>= λ seed. pure (with_disk spec seed)

unfoldable pub prepare :
    MigrationSettings → Outside → ℕ → VirtualMachineSpec → Manage VirtualMachineSpec
prepare m o id spec = do provision_all o spec.disks; add_seed m o id spec spec.cloud_init

unfoldable pub release_seed : Outside → ℕ → Manage ⊤
release_seed o id = ask o (remove_seed id) >> pure tt
