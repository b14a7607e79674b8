-- ===== src/Manager/Hypervisor.antt =====
-- crates/client/src/cloud_hypervisor.rs and process.rs with the launch of services/agent/src/backend.rs:
-- a handle to one VMM. Dropping a handle does not end its process.
use vquasar.Base.{
  ℕ, suc, Bool, true, false, not, Option, none, some, List, ◌∷◌, ◌==◌, keep, is_some, if◌then◌else◌,
}
use vquasar.Base.Action.{◌>>=◌, ◌>>◌, pure, gets, modify}
use vquasar.Model.{VirtualMachineSpec, DiskSpec, VmPhase, stopped}
use vquasar.Manager.{
  Call, vm_info, HypervisorState, Outside, Vmm, TapBinding, Agent, Manage, ⊤, made, ask, must,
  must_then, hypervisor, on_children, on_dirs, spawn, wait_ready, kill, created, shutdown, paused,
  vm_create, vm_boot, vm_shutdown, vmm_shutdown, vm_resize, vm_add_disk, vm_add_net,
  vm_send_migration, create_vm_dir, lookup, insert, Dict, VmRecord,
}
use vquasar.Manager as M

-- `create_dir_all`: a directory that is there stays as it is.
abbrev pub with_dir : ℕ → Dict (Option VmRecord) → Dict (Option VmRecord)
with_dir id dirs = elim (lookup id dirs) [ none ↦ insert id none dirs | some _ ↦ dirs ]

abbrev pub start_process : Agent → Agent
start_process s = record s { children = s.spawned ∷ s.children; spawned = suc s.spawned }

unfoldable pub launch : Outside → ℕ → List TapBinding → Manage Vmm
launch o id taps = do
  must_then o hypervisor (create_vm_dir id) (on_dirs (with_dir id))
  p ← gets (λ s. s.spawned)
  must_then o hypervisor (spawn id taps) start_process
  must o hypervisor (wait_ready id)
  pure (record { socket = id; process = some p })

-- `GET /vm.info`.
unfoldable pub current_state : Outside → Vmm → Manage (Option HypervisorState)
unfolding ◌>>=◌ made
current_state o v = do
  calls ← gets (λ s. s.calls)
  modify (made (vm_info v.socket))
  pure (o.info calls v.socket)

unfoldable pub create : Outside → Vmm → VirtualMachineSpec → Manage ⊤
create o v spec = do
  state ← current_state o v
  if is_some state then pure tt else must o hypervisor (vm_create v.socket spec)

abbrev pub is_running : Option HypervisorState → Bool
is_running (some M.running) = true
is_running _ = false

abbrev pub is_down : Option HypervisorState → Bool
is_down none = true
is_down (some shutdown) = true
is_down _ = false

abbrev pub is_created : Option HypervisorState → Bool
is_created (some created) = true
is_created _ = false

unfoldable pub boot : Outside → Vmm → Manage ⊤
boot o v = do
  state ← current_state o v
  if is_running state then pure tt else must o hypervisor (vm_boot v.socket)

unfoldable pub shut_down : Outside → Vmm → Manage ⊤
shut_down o v = do
  state ← current_state o v
  if is_down state then pure tt else must o hypervisor (vm_shutdown v.socket)

abbrev pub end_process : ℕ → Agent → Agent
end_process p s = on_children (keep λ q. not (p == q)) s

-- Errors are ignored: `kill` fails only on a process that has ended.
unfoldable pub end_owned : Outside → Option ℕ → Manage ⊤
end_owned o none = pure tt
end_owned o (some p) = ask o (kill p) >> modify (end_process p)

abbrev pub exit_processes : (ℕ → Bool) → Agent → Agent
exit_processes ends s = on_children (keep λ q. not (ends q)) s

-- An API shutdown that succeeds ends the VMM behind the socket, owned or not.
unfoldable pub terminate : Outside → Vmm → Manage ⊤
unfolding ◌>>=◌ ask
terminate o v = do
  calls ← gets (λ s. s.calls)
  done ← ask o (vmm_shutdown v.socket)
  if done then modify (exit_processes (o.exits calls v.socket)) else pure tt
  end_owned o v.process

unfoldable pub resize : Outside → Vmm → Option ℕ → Option ℕ → Manage ⊤
resize o v vcpus ram = must o hypervisor (vm_resize v.socket vcpus ram)

unfoldable pub add_disk : Outside → Vmm → DiskSpec → Manage ⊤
add_disk o v disk = must o hypervisor (vm_add_disk v.socket disk)

unfoldable pub add_net : Outside → Vmm → TapBinding → Manage ⊤
add_net o v tap = must o hypervisor (vm_add_net v.socket tap)

unfoldable pub phase_of : HypervisorState → VmPhase
phase_of created = stopped
phase_of shutdown = stopped
phase_of M.running = VmPhase.running
phase_of paused = VmPhase.running
