-- ===== src/Manager/Receive.antt =====
-- services/agent/src/manager.rs: the steps of a live migration on either host, `teardown`, and the
-- plain operations on a VM.
use Prim.Native.String.{String, ◌++◌ as ◌<>◌}
use vquasar.Base.{
  ℕ, zero, suc, ◌+◌, ◌-◌, true, false, not, ◌&&◌, Option, none, some, List, [], ◌∷◌, length, str_eq,
  is_some, if◌then◌else◌,
}
use vquasar.Base.Action.{◌>>=◌, ◌>>◌, pure, raise, gets, modify, attempt, or_raise}
use vquasar.Base.Result.{Result, ok, err}
use vquasar.Model.{VirtualMachineSpec}
use vquasar.Manager.{
  Outside, Manage, ⊤, Dict, ask, must, not_found, hypervisor, io, Shared, reclaim, keep_shared,
  VmRecord, Vmm, ManagedVm, PendingReceive, ObservedVm, MigrationSettings, on_vms, on_pending,
  lookup, insert, remove, create_socket_dir, remove_socket, bind_port, vm_send_migration,
  vm_receive_migration, ManagerError,
}
use vquasar.Manager.Hypervisor.{launch, boot, shut_down, terminate, current_state}
use vquasar.Manager.Files.{store_record, remove_vm_dir, release_seed, discover_vm_ids, load_record}
use vquasar.Manager.Ensure.{observe, release_from}

-- The first of `count` ports from `port` that can be bound.
unfoldable pub pick_port : Outside → ℕ → ℕ → Manage (Option ℕ)
pick_port o port zero = pure none
pick_port o port (suc count) = do
  bound ← ask o (bind_port port)
  if bound then pure (some port) else pick_port o (port + 1) count

unfoldable pub pick_free_port : Outside → ℕ → ℕ → Manage (Option ℕ)
pick_free_port o min max = pick_port o min (max + 1 - min)

abbrev pub advertised : MigrationSettings → Outside → String
advertised m o = if str_eq m.advertise_host "" then o.hostname else m.advertise_host

-- The URL that the VMM binds and the one that the source connects to.
abbrev pub unix_url : MigrationSettings → Outside → ℕ → String
unix_url m o id = "unix:" <> (m.socket_dir <> ("/" <> (o.uuid id <> ".sock")))

unfoldable pub unix_urls : MigrationSettings → Outside → ℕ → Manage (String × String)
unix_urls m o id = do
  must o io create_socket_dir
  ask o (remove_socket id)
  pure (unix_url m o id, unix_url m o id)

unfoldable pub tcp_urls : MigrationSettings → Outside → Manage (String × String)
tcp_urls m o = do
  free ← pick_free_port o m.port_min m.port_max
  port ← or_raise hypervisor free
  let digits = o.decimal port
  pure ("tcp:0.0.0.0:" <> digits, "tcp:" <> (advertised m o <> (":" <> digits)))

unfoldable pub receiver_urls : MigrationSettings → Outside → ℕ → Manage (String × String)
receiver_urls m o id = if str_eq m.transport "unix" then unix_urls m o id else tcp_urls m o

unfoldable pub new_receiver :
    MigrationSettings → Outside → ℕ → String → VirtualMachineSpec → Manage String
new_receiver m o id name spec = do
  let r : VmRecord = record { id = id; name = name; spec = spec }
  store_record o r
  v ← launch o id []
  (recv_url, return_url) ← receiver_urls m o id
  let entry : PendingReceive = record {
    record_of = r;
    vmm = v;
    polled = false;
    recv_url = recv_url;
    return_url = return_url;
  }
  modify (on_pending (insert id entry))
  pure return_url

unfoldable pub receive_as :
    MigrationSettings
    → Outside
    → ℕ
    → String
    → VirtualMachineSpec
    → Option PendingReceive
    → Manage String
receive_as m o id name spec none = new_receiver m o id name spec
receive_as m o id name spec (some p) = pure p.return_url

unfoldable pub prepare_receive :
    MigrationSettings → Outside → ℕ → String → VirtualMachineSpec → Manage String
prepare_receive m o id name spec = do
  existing ← gets (λ s. lookup id s.pending)
  receive_as m o id name spec existing

abbrev pub adopted : PendingReceive → ManagedVm
adopted p = record { record_of = p.record_of; vmm = p.vmm }

abbrev pub poll : PendingReceive → PendingReceive
poll p = record p { polled = true }

-- A task whose outcome was taken cannot be awaited again: that panics, which `detach` reports.
unfoldable pub await_received : Outside → ℕ → PendingReceive → Manage ⊤
await_received o id p =
    if p.polled
    then raise hypervisor
    else (modify (on_pending (insert id (poll p)))
        >> must o hypervisor (vm_receive_migration id p.recv_url))

unfoldable pub adopt : Outside → ℕ → Manage ObservedVm
adopt o id = do
  found ← gets (λ s. lookup id s.pending)
  p ← or_raise (not_found id) found
  await_received o id p
  modify (on_pending (remove id))
  modify (on_vms (insert id (adopted p)))
  observe o (adopted p)

unfoldable pub finalize_as : Outside → ℕ → Option ManagedVm → Manage ObservedVm
finalize_as o id (some managed) = observe o managed
finalize_as o id none = adopt o id

unfoldable pub finalize_receive : Outside → ℕ → Manage ObservedVm
finalize_receive o id = do managed ← gets (λ s. lookup id s.vms); finalize_as o id managed

-- `self.vms.get(&id).ok_or(NotFound)?`.
unfoldable pub get_managed : ℕ → Manage ManagedVm
get_managed id = do found ← gets (λ s. lookup id s.vms); or_raise (not_found id) found

unfoldable pub send_migration : Outside → ℕ → String → Manage ⊤
send_migration o id url = do
  managed ← get_managed id
  must o hypervisor (vm_send_migration managed.vmm.socket url)

unfoldable pub release_shared : Outside → ℕ → Shared → Manage ⊤
release_shared o id reclaim = release_seed o id
release_shared o id keep_shared = pure tt

unfoldable pub teardown : Outside → ℕ → Shared → Manage ⊤
teardown o id shared = do
  modify (on_pending (remove id))
  managed ← get_managed id
  modify (on_vms (remove id))
  attempt (shut_down o managed.vmm)
  terminate o managed.vmm
  release_from o id 0 (length managed.record_of.spec.network_interfaces)
  remove_vm_dir o id
  release_shared o id shared

unfoldable pub delete : Outside → ℕ → Manage ⊤
delete o id = teardown o id reclaim

unfoldable pub discard : Outside → ℕ → Manage ⊤
discard o id = do
  receiver ← gets (λ s. lookup id s.pending)
  modify (on_pending (remove id))
  vm ← gets (λ s. lookup id s.vms)
  if is_some receiver && not (is_some vm) then pure tt else teardown o id keep_shared

unfoldable pub start : Outside → ℕ → Manage ObservedVm
start o id = do managed ← get_managed id; boot o managed.vmm; observe o managed

unfoldable pub stop : Outside → ℕ → Manage ObservedVm
stop o id = do managed ← get_managed id; shut_down o managed.vmm; observe o managed

unfoldable pub get : Outside → ℕ → Manage ObservedVm
get o id = get_managed id >>= λ managed. observe o managed

unfoldable pub observe_all : Outside → Dict ManagedVm → Manage (List ObservedVm)
observe_all o [] = pure []
observe_all o ((id, managed) ∷ rest) = do
  seen ← observe o managed
  others ← observe_all o rest
  pure (seen ∷ others)

unfoldable pub list : Outside → Manage (List ObservedVm)
list o = do vms ← gets (λ s. s.vms); observe_all o vms

-- `attach`, which only makes the handle, and the probe.
abbrev pub attached : ℕ → Vmm
attached id = record { socket = id; process = none }

unfoldable pub recover_record : Outside → ℕ → VmRecord → Manage ⊤
recover_record o id r = do
  state ← current_state o (attached id)
  if is_some state
      then modify (on_vms (insert id (record { record_of = r; vmm = attached id })))
      else attempt (remove_vm_dir o id) >> pure tt

unfoldable pub recover_found : Outside → ℕ → Result ManagerError VmRecord → Manage ⊤
recover_found o id (ok r) = recover_record o id r
recover_found o id (err e) = pure tt

unfoldable pub recover_one : Outside → ℕ → Manage ⊤
recover_one o id = attempt (load_record id) >>= recover_found o id

unfoldable pub recover_all : Outside → List ℕ → Manage ⊤
recover_all o [] = pure tt
recover_all o (id ∷ ids) = attempt (recover_one o id) >> recover_all o ids

-- The maps are empty when an agent starts.
unfoldable pub recover : Outside → Manage ⊤
recover o = gets discover_vm_ids >>= recover_all o
