-- ===== src/Manager.antt =====
-- services/agent/src/manager.rs: the VMs of one host, with the client of Cloud Hypervisor
-- (crates/client/src), the runtime directories and the storage that the manager drives. What happens
-- outside of the agent is the argument `Outside`: it answers each call from the calls before it. A
-- request runs to its end, as `detach` and the locks have it.
pub mod Hypervisor
pub mod Files
pub mod Ensure
pub mod Receive
pub mod Requests
mod Maps
mod Local
mod Entries
mod Kept
mod Served
pub mod Frame
pub mod Seeds
pub mod Orphans
pub mod Leak
pub mod Once
pub mod Spares
pub mod Finalize
pub mod Resizing
pub mod Recovery
use vquasar.Base.{
  ℕ, suc, ◌+◌, String, Bool, true, false, not, Option, none, some, List, [], ◌∷◌, ◌==◌, keep,
  if◌then◌else◌,
}
use vquasar.Base.Action.{Action, ◌>>=◌, ◌>>◌, pure, raise, gets, modify}
use vquasar.Model.{VirtualMachineSpec, DiskSpec, VmPhase}
use vquasar.Model.Validation.{ValidationError}
use vquasar.Firewall.{SecRule}

pub record OverlayPeerId : Type 0 where
  pub underlay_ip : String
  pub cert_cn : String

pub record NicBinding : Type 0 where
  pub mac : String
  pub vlan : ℕ
  pub vni : ℕ
  pub overlay_peers : List String
  pub filtered : Bool
  pub ingress_rules : List SecRule
  pub egress_rules : List SecRule
  pub egress_default_deny : Bool
  pub encrypt_underlay : Bool
  pub overlay_peer_identities : List OverlayPeerId

pub record TapBinding : Type 0 where
  pub tap : String
  pub mac : Option String

-- Calls of the file system, the network backend, other programs, and the API of the VMM that serves
-- the socket of a VM. A process has a number.
pub data Call : Type 0 where
  create_vm_dir remove_vm_dir open_record write_record : ℕ → Call
  provision_disk : DiskSpec → Call
  make_seed remove_seed : ℕ → Call
  prepare_nic rehome_nic : ℕ → ℕ → NicBinding → Call
  release_nic : ℕ → ℕ → Call
  spawn : ℕ → List TapBinding → Call
  wait_ready : ℕ → Call
  kill : ℕ → Call
  vm_create : ℕ → VirtualMachineSpec → Call
  vm_info vm_boot vm_shutdown vmm_shutdown : ℕ → Call
  vm_resize : ℕ → Option ℕ → Option ℕ → Call
  vm_add_disk : ℕ → DiskSpec → Call
  vm_add_net : ℕ → TapBinding → Call
  vm_send_migration vm_receive_migration : ℕ → String → Call
  create_socket_dir : Call
  remove_socket : ℕ → Call
  bind_port : ℕ → Call

pub data HypervisorState : Type 0 where
  created running shutdown paused : HypervisorState

-- `accepts` says whether a call succeeds after the given calls, the newest first; `info` is the answer
-- of `/vm.info`, `not_empty` says that a directory could not be removed for a file that appeared in it,
-- and `seed_exists` that a VM has a seed. `exits` says which processes end when the shutdown of the VMM
-- behind a VM's API socket succeeds. `uuid` and `decimal` print an identifier and a number, `tap_name` is that of the
-- network backend, and `address_of` looks in the neighbour table.
pub record Outside : Type 0 where
  pub accepts : List Call → Call → Bool
  pub info : List Call → ℕ → Option HypervisorState
  pub not_empty : List Call → ℕ → Bool
  pub seed_exists : List Call → ℕ → Bool
  pub exits : List Call → ℕ → ℕ → Bool
  pub address_of : String → Option String
  pub tap_name : ℕ → ℕ → String
  pub uuid : ℕ → String
  pub decimal : ℕ → String
  pub hostname : String

-- `shared_dir` is the provisioner's.
pub record MigrationSettings : Type 0 where
  pub shared_dir : String
  pub transport : String
  pub advertise_host : String
  pub port_min : ℕ
  pub port_max : ℕ
  pub socket_dir : String

pub data ManagerError : Type 0 where
  not_found : ℕ → ManagerError
  invalid_spec : ValidationError → ManagerError
  hypervisor network storage io : ManagerError

pub record VmRecord : Type 0 where
  pub id : ℕ
  pub name : String
  pub spec : VirtualMachineSpec

-- A handle: the VM whose API socket it talks to, and the process it owns unless it was attached.
pub record Vmm : Type 0 where
  pub socket : ℕ
  pub process : Option ℕ

pub record ManagedVm : Type 0 where
  pub record_of : VmRecord
  pub vmm : Vmm

-- `recv` is the task that receives; `polled` says that its outcome was taken.
pub record PendingReceive : Type 0 where
  pub record_of : VmRecord
  pub vmm : Vmm
  pub polled : Bool
  pub recv_url : String
  pub return_url : String

pub data Shared : Type 0 where
  reclaim keep_shared : Shared

pub record ObservedVm : Type 0 where
  pub id : ℕ
  pub name : String
  pub phase : VmPhase
  pub pid : Option ℕ
  pub failed : Bool
  pub ip : Option String

-- A `HashMap` by identifiers. An inserted key is in front.
abbrev pub Dict : Type 0 → Type 0
Dict A = List (ℕ × A)

module _ {A : Type 0} where
  abbrev pub lookup : ℕ → Dict A → Option A
  lookup k [] = none
  lookup k ((j, a) ∷ d) = if k == j then some a else lookup k d

  abbrev pub remove : ℕ → Dict A → Dict A
  remove k [] = []
  remove k ((j, a) ∷ d) = let rest = remove k d in if k == j then rest else (j, a) ∷ rest

  abbrev pub insert : ℕ → A → Dict A → Dict A
  insert k a d = (k, a) ∷ remove k d

-- The two maps, the runtime directories with the record in each if it can be read, the processes that
-- were spawned and have not ended, how many were spawned, and the calls, the newest first.
pub record Agent : Type 0 where
  pub vms : Dict ManagedVm
  pub pending : Dict PendingReceive
  pub dirs : Dict (Option VmRecord)
  pub children : List ℕ
  pub spawned : ℕ
  pub calls : List Call

abbrev pub Manage : Type 0 → Type 0
Manage A = Action ManagerError Agent A

abbrev pub ⊤ : Type 0
⊤ = Unit

unfoldable pub made : Call → Agent → Agent
made c s = record s { calls = c ∷ s.calls }

-- One call, and whether it succeeded.
unfoldable pub ask : Outside → Call → Manage Bool
unfolding ◌>>=◌ made
ask o c = do calls ← gets (λ s. s.calls); modify (made c); pure (o.accepts calls c)

-- `call.await?`.
unfoldable pub must : Outside → ManagerError → Call → Manage ⊤
must o e c = do done ← ask o c; if done then pure tt else raise e

-- `call.await?` and then its effect on the state.
unfoldable pub must_then : Outside → ManagerError → Call → (Agent → Agent) → Manage ⊤
must_then o e c f = must o e c >> modify f

-- Changes of one part of the state.
unfoldable pub on_vms : (Dict ManagedVm → Dict ManagedVm) → Agent → Agent
on_vms f s = record s { vms = f s.vms }

unfoldable pub on_pending : (Dict PendingReceive → Dict PendingReceive) → Agent → Agent
on_pending f s = record s { pending = f s.pending }

unfoldable pub on_dirs : (Dict (Option VmRecord) → Dict (Option VmRecord)) → Agent → Agent
on_dirs f s = record s { dirs = f s.dirs }

unfoldable pub on_children : (List ℕ → List ℕ) → Agent → Agent
on_children f s = record s { children = f s.children }
