-- ===== src/Manager/Entries.antt =====
-- Invariants of the manager that allow for changes of the entries of one VM: each request on that VM
-- keeps them.
use vquasar.Base.{ℕ, zero, suc, Option, none, some, List, [], ◌∷◌, ◌≡◌, refl}
use vquasar.Base.Action.{gets}
use vquasar.Base.Action.Keeps.{
  Keeps, Gives, Keeps-pure, Keeps-then, Keeps-if, Keeps-attempt, Gives-gets,
}
use vquasar.Model.{VirtualMachineSpec, DiskSpec}
use vquasar.Manager.{
  Outside, Agent, ManagerError, Vmm, ManagedVm, PendingReceive, on_vms, on_pending, insert, remove,
  lookup, NicBinding,
}
use vquasar.Manager.Hypervisor.{resize}
use vquasar.Manager.Ensure.{
  observe, prepare_tap, prepare_taps, rehome_all, release_from, resize_vcpus, resize_memory,
  add_disks, add_nics, reconfigure, stop_vmm, stop_found,
}
use vquasar.Manager.Local.{
  Quiet, Closed, Owned, Keeps-ask, Keeps-must, Keeps-current_state, Keeps-shut_down,
  Keeps-terminate, Keeps-add_disk, Keeps-add_net,
}

-- Any resizing keeps `P`.
abbrev pub Resizes : (Agent → Type 0) → Type 0
Resizes P = (v : Vmm) (o : Outside) (cpus ram : Option ℕ) → Keeps P (resize o v cpus ram)

-- The managed entry of `id` may be set and removed.
pub record VmEntries (id : ℕ) (Own : ℕ → Type 0) (P : Agent → Type 0) : Type 0 where
  pub closed : Closed id Own P
  pub vm_set : (m : ManagedVm) → Owned Own m.vmm → (s : Agent) → P s → P (on_vms (insert id m) s)
  pub vm_gone : (s : Agent) → P s → P (on_vms (remove id) s)
  pub vm_owned : (s : Agent) → P s → (m : ManagedVm) → lookup id s.vms ≡ some m → Owned Own m.vmm
  pub resizes : Resizes P

-- And so may its receiver.
pub record Entries (id : ℕ) (Own : ℕ → Type 0) (P : Agent → Type 0) : Type 0 where
  pub vms : VmEntries id Own P
  pub recv_set :
      (p : PendingReceive) → Owned Own p.vmm → (s : Agent) → P s → P (on_pending (insert id p) s)
  pub recv_gone : (s : Agent) → P s → P (on_pending (remove id) s)
  pub recv_owned :
      (s : Agent) → P s → (p : PendingReceive) → lookup id s.pending ≡ some p → Owned Own p.vmm

-- The VMM of an entry that was found, if one was.
abbrev pub FoundVm : (ℕ → Type 0) → Option ManagedVm → Type 0
FoundVm Own found = (m : ManagedVm) → found ≡ some m → Owned Own m.vmm

abbrev pub FoundRecv : (ℕ → Type 0) → Option PendingReceive → Type 0
FoundRecv Own found = (p : PendingReceive) → found ≡ some p → Owned Own p.vmm

module _ {id : ℕ} {P : Agent → Type 0} (k : Quiet id P) (o : Outside) where
  pub Keeps-observe : (m : ManagedVm) → Keeps P (observe o m)
  unfolding observe
  Keeps-observe m = Keeps-then (Keeps-current_state k o m.vmm) λ _. Keeps-pure _

  pub tap_lem : (index : ℕ) (b : NicBinding) → Keeps P (prepare_tap o id index b)
  unfolding prepare_tap
  tap_lem index b = Keeps-then (Keeps-must k o _ _ refl) λ _. Keeps-pure _

  pub taps_lem : (index : ℕ) (bs : List NicBinding) → Keeps P (prepare_taps o id index bs)
  unfolding prepare_taps
  taps_lem index [] = Keeps-pure []
  taps_lem index (b ∷ bs) =
      Keeps-then (tap_lem index b) λ tap. Keeps-then (taps_lem (suc index) bs) λ taps. Keeps-pure _

  pub rehome_lem : (index : ℕ) (bs : List NicBinding) → Keeps P (rehome_all o id index bs)
  unfolding rehome_all
  rehome_lem index [] = Keeps-pure tt
  rehome_lem index (b ∷ bs) = Keeps-then (Keeps-must k o _ _ refl) λ _. rehome_lem (suc index) bs

  pub release_lem : (index count : ℕ) → Keeps P (release_from o id index count)
  unfolding release_from
  release_lem index zero = Keeps-pure tt
  release_lem index (suc count) =
      Keeps-then (Keeps-ask k o _ refl) λ _. release_lem (suc index) count

  pub disks_lem : (v : Vmm) (old ds : List DiskSpec) → Keeps P (add_disks o v old ds)
  unfolding add_disks
  disks_lem v old [] = Keeps-pure tt
  disks_lem v old (d ∷ ds) =
      Keeps-then (Keeps-if _ _ _ (Keeps-pure tt) (Keeps-add_disk k o v d)) λ _. disks_lem v old ds

  pub nics_lem :
      (v : Vmm) (index count : ℕ) (bs : List NicBinding) → Keeps P (add_nics o id v index count bs)
  unfolding add_nics
  nics_lem v index zero bs = Keeps-pure tt
  nics_lem v index (suc count) [] = Keeps-pure tt
  nics_lem v index (suc count) (b ∷ bs) =
      Keeps-then (tap_lem index b)
        λ tap. Keeps-then (Keeps-add_net k o v tap) λ _. nics_lem v (suc index) count bs

  pub vcpus_lem :
      Resizes P → (v : Vmm) (old new : VirtualMachineSpec) → Keeps P (resize_vcpus o v old new)
  unfolding resize_vcpus
  vcpus_lem sizes v old new =
      Keeps-if _ _ _ (Keeps-pure tt) (Keeps-if _ _ _ (sizes v o _ _) (Keeps-pure tt))

  pub memory_lem :
      Resizes P → (v : Vmm) (old new : VirtualMachineSpec) → Keeps P (resize_memory o v old new)
  unfolding resize_memory
  memory_lem sizes v old new =
      Keeps-if _ _ _ (Keeps-pure tt) (Keeps-if _ _ _ (sizes v o _ _) (Keeps-pure tt))

  pub reconfigure_lem :
      Resizes P
      → (m : ManagedVm) (new : VirtualMachineSpec) (bs : List NicBinding)
      → Keeps P (reconfigure o id m new bs)
  unfolding reconfigure
  reconfigure_lem sizes m new bs = Keeps-then (vcpus_lem sizes m.vmm _ new) λ _.
      Keeps-then (memory_lem sizes m.vmm _ new)
        λ _. Keeps-then (disks_lem m.vmm _ new.disks) λ _. nics_lem m.vmm _ _ _

module _ {id : ℕ} {Own : ℕ → Type 0} {P : Agent → Type 0} (k : VmEntries id Own P)
    (o : Outside) where
  pub stop_vmm_lem : (m : ManagedVm) → Owned Own m.vmm → Keeps P (stop_vmm o m)
  unfolding stop_vmm
  stop_vmm_lem m w =
      Keeps-then (Keeps-attempt _ (Keeps-shut_down k.closed.quiet o m.vmm))
        λ _. Keeps-terminate k.closed o m.vmm w

  pub stop_found_lem : (found : Option ManagedVm) → FoundVm Own found → Keeps P (stop_found o found)
  unfolding stop_found
  stop_found_lem none w = Keeps-pure tt
  stop_found_lem (some m) w = stop_vmm_lem m (w m refl)

  pub Gives-vm : Gives P (FoundVm Own) (gets {E = ManagerError} λ s. lookup id s.vms)
  Gives-vm = Gives-gets _ k.vm_owned

module _ {id : ℕ} {Own : ℕ → Type 0} {P : Agent → Type 0} (k : Entries id Own P) where
  pub Gives-recv : Gives P (FoundRecv Own) (gets {E = ManagerError} λ s. lookup id s.pending)
  Gives-recv = Gives-gets _ k.recv_owned
