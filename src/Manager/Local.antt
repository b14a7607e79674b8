-- ===== src/Manager/Local.antt =====
-- Invariants of the manager: what the calls on one VMM and on the files keep.
use vquasar.Base.{
  ℕ, zero, suc, Bool, true, false, Option, none, some, List, [], ◌∷◌, ◌≡◌, refl, subst, not, ◌||◌,
}
use vquasar.Base.Action.{gets}
use vquasar.Base.Action.Keeps.{
  Keeps, Gives, Keeps-pure, Keeps-gets, Keeps-modify, Keeps-bind, Keeps-if, Keeps-raise, Keeps-then,
  Gives-then, Gives-pure, Gives-gets, keeps_rules, Gives-after,
}
use vquasar.Model.{VirtualMachineSpec, DiskSpec, CloudInitSpec}
use vquasar.Manager.{
  Outside, Agent, Call, ask, must, must_then, made, ManagerError, Vmm, VmRecord, on_dirs, insert,
  remove, TapBinding, MigrationSettings, vm_resize, remove_seed, hypervisor, wait_ready, io,
}
use vquasar.Manager.Hypervisor.{
  launch, current_state, create, boot, shut_down, terminate, add_disk, add_net, start_process,
  end_process, exit_processes, with_dir, end_owned,
}
use vquasar.Manager.Files.{
  store_record, remove_vm_dir, remove_tries, ensure_seed, provision_all, prepare, add_seed,
  provision_one,
}

abbrev pub is_resize : Call → Bool
is_resize (vm_resize v vcpus ram) = true
is_resize c = false

abbrev pub is_remove_seed : Call → Bool
is_remove_seed (remove_seed id) = true
is_remove_seed c = false

-- The calls but the two that a theorem may restrict.
abbrev pub plain : Call → Bool
plain c = not (is_resize c || is_remove_seed c)

-- Each process of a handle satisfies `Own`.
abbrev pub Owned : (ℕ → Type 0) → Vmm → Type 0
Owned Own v = (p : ℕ) → v.process ≡ some p → Own p

-- The calls may change, and the directory of the VM `id`.
pub record Quiet (id : ℕ) (P : Agent → Type 0) : Type 0 where
  pub called : (c : Call) → plain c ≡ true → (s : Agent) → P s → P (made c s)
  pub dir_made : (s : Agent) → P s → P (on_dirs (with_dir id) s)
  pub dir_set : (r : Option VmRecord) (s : Agent) → P s → P (on_dirs (insert id r) s)
  pub dir_gone : (s : Agent) → P s → P (on_dirs (remove id) s)

-- Processes may be started too, those in `Own` may be killed, and any may exit.
pub record Closed (id : ℕ) (Own : ℕ → Type 0) (P : Agent → Type 0) : Type 0 where
  pub quiet : Quiet id P
  pub started : (s : Agent) → P s → P (start_process s)
  pub ended : (p : ℕ) → Own p → (s : Agent) → P s → P (end_process p s)
  pub exited : (ends : ℕ → Bool) (s : Agent) → P s → P (exit_processes ends s)
  pub fresh : (s : Agent) → P s → Own s.spawned

some-inj : (p q : ℕ) → some p ≡ some q → p ≡ q
some-inj p q e = cc

module _ {P : Agent → Type 0} (o : Outside) (c : Call)
    (call : (s : Agent) → P s → P (made c s)) where
  pub ask-Keeps : Keeps P (ask o c)
  unfolding ask
  ask-Keeps = record { at = call }

  pub must-Keeps : (e : ManagerError) → Keeps P (must o e c)
  unfolding must
  must-Keeps e = Keeps-then ask-Keeps λ done. Keeps-if done _ _ (Keeps-pure tt) (Keeps-raise e)

module _ {id : ℕ} {P : Agent → Type 0} (k : Quiet id P) (o : Outside) where
  pub Keeps-ask : (c : Call) → plain c ≡ true → Keeps P (ask o c)
  Keeps-ask c h = ask-Keeps o c (k.called c h)

  pub Keeps-must : (e : ManagerError) (c : Call) → plain c ≡ true → Keeps P (must o e c)
  Keeps-must e c h = must-Keeps o c (k.called c h) e

  pub Keeps-must_then :
      (e : ManagerError) (c : Call) (f : Agent → Agent)
      → plain c ≡ true
      → ((s : Agent) → P s → P (f s))
      → Keeps P (must_then o e c f)
  unfolding must_then
  Keeps-must_then e c f h m = Keeps-bind (must o e c) _ (Keeps-must e c h) λ u. Keeps-modify f m

  pub Keeps-current_state : (v : Vmm) → Keeps P (current_state o v)
  unfolding current_state
  Keeps-current_state v = record { at = k.called _ refl }

  pub Keeps-create : (v : Vmm) (spec : VirtualMachineSpec) → Keeps P (create o v spec)
  unfolding create
  Keeps-create v spec = search (keeps_rules, Keeps-current_state, Keeps-must)

  pub Keeps-boot : (v : Vmm) → Keeps P (boot o v)
  unfolding boot
  Keeps-boot v = search (keeps_rules, Keeps-current_state, Keeps-must)

  pub Keeps-shut_down : (v : Vmm) → Keeps P (shut_down o v)
  unfolding shut_down
  Keeps-shut_down v = search (keeps_rules, Keeps-current_state, Keeps-must)

  pub Keeps-add_disk : (v : Vmm) (d : DiskSpec) → Keeps P (add_disk o v d)
  unfolding add_disk
  Keeps-add_disk v d = search Keeps-must

  pub Keeps-add_net : (v : Vmm) (tap : TapBinding) → Keeps P (add_net o v tap)
  unfolding add_net
  Keeps-add_net v tap = search Keeps-must

  pub Keeps-store_record : (r : VmRecord) → r.id ≡ id → Keeps P (store_record o r)
  unfolding store_record
  Keeps-store_record r e = rw e (search (keeps_rules, Keeps-must_then, k.dir_made, k.dir_set))

  tries_lem : (n : ℕ) → Keeps P (remove_tries o id n)
  unfolding remove_tries
  tries_lem zero = Keeps-pure tt
  tries_lem (suc n) = Keeps-then (Keeps-ask _ refl) λ done.
      Keeps-then (Keeps-gets λ s. s.calls) λ calls.
        Keeps-if done _ _ (Keeps-modify _ k.dir_gone)
          (Keeps-if _ _ _ (tries_lem n) (Keeps-raise io))

  pub Keeps-remove_vm_dir : Keeps P (remove_vm_dir o id)
  unfolding remove_vm_dir
  Keeps-remove_vm_dir = tries_lem 5

  pub Keeps-ensure_seed : (m : MigrationSettings) → Keeps P (ensure_seed m o id)
  unfolding ensure_seed
  Keeps-ensure_seed m = search (keeps_rules, Keeps-must)

  provision_lem : (d : DiskSpec) → Keeps P (provision_one o d)
  unfolding provision_one
  provision_lem d = search (keeps_rules, Keeps-must)

  pub Keeps-provision_all : (ds : List DiskSpec) → Keeps P (provision_all o ds)
  unfolding provision_all
  Keeps-provision_all [] = Keeps-pure tt
  Keeps-provision_all (d ∷ ds) = Keeps-then (provision_lem d) λ _. Keeps-provision_all ds

  add_seed_lem :
      (m : MigrationSettings) (spec : VirtualMachineSpec) (c : Option CloudInitSpec)
      → Keeps P (add_seed m o id spec c)
  unfolding add_seed
  add_seed_lem m spec none = Keeps-pure spec
  add_seed_lem m spec (some c) = search (keeps_rules, Keeps-ensure_seed)

  pub Keeps-prepare :
      (m : MigrationSettings) (spec : VirtualMachineSpec) → Keeps P (prepare m o id spec)
  unfolding prepare
  Keeps-prepare m spec =
      Keeps-then (Keeps-provision_all spec.disks) λ _. add_seed_lem m spec spec.cloud_init

  pub Keeps-launch :
      (taps : List TapBinding)
      → ((s : Agent) → P s → P (start_process s))
      → Keeps P (launch o id taps)
  unfolding launch
  Keeps-launch taps started = Keeps-then (Keeps-must_then _ _ _ refl k.dir_made) λ _.
      Keeps-then (Keeps-gets λ s. s.spawned) λ p.
        Keeps-then (Keeps-must_then _ _ _ refl started)
          λ _. Keeps-then (Keeps-must hypervisor (wait_ready id) refl) λ _. Keeps-pure _

module _ {id : ℕ} {Own : ℕ → Type 0} {P : Agent → Type 0} (k : Closed id Own P) (o : Outside) where
  end_lem : (p : Option ℕ) → ((q : ℕ) → p ≡ some q → Own q) → Keeps P (end_owned o p)
  unfolding end_owned
  end_lem none w = Keeps-pure tt
  end_lem (some q) w =
      search (keeps_rules, Keeps-ask k.quiet o, Keeps-modify (end_process q) (k.ended q (w q refl)))

  pub Keeps-terminate : (v : Vmm) → Owned Own v → Keeps P (terminate o v)
  unfolding terminate
  Keeps-terminate v w = Keeps-then (Keeps-gets λ s. s.calls) λ calls.
      Keeps-then (Keeps-ask k.quiet o _ refl) λ done.
        Keeps-then
          (Keeps-if done _ _ (Keeps-modify _ (k.exited (o.exits calls v.socket))) (Keeps-pure tt))
          λ _. end_lem v.process w

  -- A launched VMM owns the process that was spawned for it.
  pub Gives-launch : (taps : List TapBinding) → Gives P (Owned Own) (launch o id taps)
  unfolding launch
  Gives-launch taps = Gives-after (Keeps-must_then k.quiet o _ _ _ refl k.quiet.dir_made) λ _.
      Gives-then (gets λ s. s.spawned) _ (Gives-gets (λ s. s.spawned) k.fresh) λ p own.
        Gives-after (Keeps-must_then k.quiet o _ _ _ refl k.started) λ _.
          Gives-after (Keeps-must k.quiet o hypervisor (wait_ready id) refl)
            λ _. Gives-pure _ λ q e. subst Own (some-inj p q e) own
