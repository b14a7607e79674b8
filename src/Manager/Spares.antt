-- ===== src/Manager/Spares.antt =====
-- `ensure` on a VM that is managed: it starts no second VMM, and spares the one that runs.
use vquasar.Base.{
  ℕ, String, Bool, true, false, Option, none, some, List, ◌∷◌, ◌≡◌, ◌≢◌, refl, ◌∙◌, ap,
  if◌then◌else◌, arith,
}
use vquasar.Base.Result.{Result, ok, err}
use vquasar.Base.Action.{pure}
use vquasar.Base.Action.Keeps.{
  Keeps, Gives, Keeps-then, Keeps-pure, Keeps-raise, Keeps-lift, Keeps-modify, Keeps-attempt,
  Keeps-if, Gives-bind, Gives-after, Gives-pure, Gives-gets,
}
use vquasar.Model.{
  VirtualMachineSpec, DiskSpec, CloudInitSpec, DesiredPowerState, powered_on, powered_off,
}
use vquasar.Manager.{
  Outside, Agent, MigrationSettings, ManagerError, ⊤, Vmm, VmRecord, ManagedVm, NicBinding, Call,
  HypervisorState, created, made, on_dirs, on_vms, lookup, insert, Manage,
}
use vquasar.Manager.Hypervisor.{resize, current_state, is_created}
use vquasar.Manager.Files.{prepare, add_seed, with_disk}
use vquasar.Manager.Ensure.{ensure, manage, boot_failed, after_boot, power_on, to_power}
use vquasar.Manager.Maps.{lookup-insert_self}
use vquasar.Manager.Local.{
  Quiet, must-Keeps, Keeps-create, Keeps-boot, Keeps-store_record, Keeps-provision_all,
  Keeps-ensure_seed,
}
use vquasar.Manager.Entries.{Resizes, Keeps-observe, rehome_lem, reconfigure_lem}

-- The calls of a later time.
pub data Later (base : List Call) : List Call → Type 0 where
  now : Later base base
  after : {cs : List Call} (c : Call) → Later base cs → Later base (c ∷ cs)

-- The VMM `v` of the VM `id` is managed, and no process was spawned or killed since `from`.
pub record IsSpared (id : ℕ) (v : Vmm) (from s : Agent) : Type 0 where
  pub managed : (m : ManagedVm) × (lookup id s.vms ≡ some m) × (m.vmm ≡ v)
  pub same_children : s.children ≡ from.children
  pub none_spawned : s.spawned ≡ from.spawned
  pub later : Later from.calls s.calls

module _ (o : Outside) (id : ℕ) (v : Vmm) (from : Agent)
    (ran : (calls : List Call)
      → Later from.calls calls
      → o.info calls v.socket ≢ some created) where
  abbrev P : Agent → Type 0
  P = IsSpared id v from

  called_lem : (c : Call) (s : Agent) → P s → P (made c s)
  unfolding made
  called_lem c s h = record {
    managed = h.managed;
    same_children = h.same_children;
    none_spawned = h.none_spawned;
    later = Later.after c h.later;
  }

  quiet : Quiet id P
  unfolding on_dirs
  quiet = record {
    called = λ c e. called_lem c;
    dir_made = λ s h. record {
      managed = h.managed;
      same_children = h.same_children;
      none_spawned = h.none_spawned;
      later = h.later;
    };
    dir_set = λ r s h. record {
      managed = h.managed;
      same_children = h.same_children;
      none_spawned = h.none_spawned;
      later = h.later;
    };
    dir_gone = λ s h. record {
      managed = h.managed;
      same_children = h.same_children;
      none_spawned = h.none_spawned;
      later = h.later;
    };
  }

  resize_lem : Resizes P
  unfolding resize
  resize_lem w o cpus ram = must-Keeps o _ (called_lem _) _

  record_set :
      (r : VmRecord) (m : ManagedVm)
      → r.id ≡ id
      → m.vmm ≡ v
      → (s : Agent) → P s
      → P (on_vms (insert r.id (record m { record_of = r })) s)
  unfolding on_vms
  record_set r m e w s h = record {
    managed =
        (set, ap (λ i. lookup id (insert i set s.vms)) e ∙ lookup-insert_self id set s.vms, w);
    same_children = h.same_children;
    none_spawned = h.none_spawned;
    later = h.later;
  }
    where
      set : ManagedVm
      set = record m { record_of = r }

  -- What is found in the map.
  abbrev Found : Option ManagedVm → Type 0
  Found found = (m : ManagedVm) × (found ≡ some m) × (m.vmm ≡ v)

  Gives-manage :
      (r : VmRecord) (bs : List NicBinding) (found : Option ManagedVm)
      → r.id ≡ id
      → Found found
      → Gives P (λ (m, is_new). (m.vmm ≡ v) × (is_new ≡ false)) (manage o r bs found)
  unfolding manage
  Gives-manage r bs none e (m, h, w) = absurd cc
  Gives-manage r bs (some x) e (m, h, w) =
      let same : x ≡ m = cc in
      rw e
        (Gives-after (rehome_lem quiet o 0 bs) λ _. Gives-pure _ (ap (λ y. y.vmm) same ∙ w, refl))

  Gives-state :
      (m : ManagedVm)
      → m.vmm ≡ v
      → Gives P (λ state. is_created state ≡ false) (current_state o m.vmm)
  unfolding current_state
  Gives-state m e = record {
    at = λ s h.
        (called_lem _ s h, go (o.info s.calls m.vmm.socket) λ c. ran s.calls h.later (rw (← e) c));
  }
    where
      go : (state : Option HypervisorState) → state ≢ some created → is_created state ≡ false
      go none ne = refl
      go (some created) ne = absurd (ne refl)
      go (some HypervisorState.running) ne = refl
      go (some HypervisorState.shutdown) ne = refl
      go (some HypervisorState.paused) ne = refl

  skip_lem : (b : Bool) (m : Manage ⊤) → b ≡ false → Keeps P (if b then m else pure tt)
  skip_lem false m e = Keeps-pure tt
  skip_lem true m e = absurd cc

  after_boot_lem :
      (r : VmRecord) (m : ManagedVm) (nics : ℕ) (booted : Result ManagerError ⊤)
      → r.id ≡ id
      → m.vmm ≡ v
      → Keeps P (after_boot o r m nics booted)
  unfolding after_boot boot_failed
  after_boot_lem r m nics (err x) e w =
      Gives-bind _ _ (Gives-state m w)
        λ state old. Keeps-then (skip_lem (is_created state) _ old) λ _. Keeps-raise x
  after_boot_lem r m nics (ok u) e w =
      Keeps-then (Keeps-observe quiet o m)
        λ seen. Keeps-then (Keeps-modify _ (record_set r m e w)) λ _. Keeps-pure seen

  power_on_lem : (r : VmRecord) (bs : List NicBinding) → r.id ≡ id → Keeps P (power_on o r bs)
  unfolding power_on
  power_on_lem r bs e = Gives-bind _ _ (rw e (Gives-gets _ λ s h. h.managed)) λ found w.
      Gives-bind _ _ (Gives-manage r bs found e w) λ (m, is_new) (own, old).
        Keeps-then (Keeps-create quiet o m.vmm r.spec) λ _.
          Keeps-then
            (Keeps-if is_new _ _ (Keeps-pure tt)
              (rw e (reconfigure_lem quiet o resize_lem m r.spec bs)))
            λ _.
              Keeps-then (Keeps-attempt _ (Keeps-boot quiet o m.vmm))
                λ booted. after_boot_lem r m _ booted e own

  abbrev IsOn : VirtualMachineSpec → Type 0
  IsOn spec = spec.desired_power_state ≡ powered_on

  with_disk-IsOn :
      (spec : VirtualMachineSpec) (seed : DiskSpec) → IsOn spec → IsOn (with_disk spec seed)
  with_disk-IsOn spec seed e = ground arith

  Gives-seed :
      (m : MigrationSettings) (spec : VirtualMachineSpec) (c : Option CloudInitSpec)
      → IsOn spec
      → Gives P IsOn (add_seed m o id spec c)
  unfolding add_seed
  Gives-seed m spec none e = Gives-pure spec e
  Gives-seed m spec (some c) e =
      Gives-after (Keeps-ensure_seed quiet o m) λ seed. Gives-pure _ (with_disk-IsOn spec seed e)

  Gives-prepare :
      (m : MigrationSettings) (spec : VirtualMachineSpec)
      → IsOn spec
      → Gives P IsOn (prepare m o id spec)
  unfolding prepare
  Gives-prepare m spec e =
      Gives-after (Keeps-provision_all quiet o spec.disks) λ _. Gives-seed m spec spec.cloud_init e

  to_power_lem :
      (m : MigrationSettings) (r : VmRecord) (bs : List NicBinding) (d : DesiredPowerState)
      → r.id ≡ id
      → d ≡ powered_on
      → Keeps P (to_power m o r bs d)
  unfolding to_power
  to_power_lem m r bs powered_on e w = power_on_lem r bs e
  to_power_lem m r bs powered_off e w = absurd cc

  pub Keeps-ensure_on :
      (m : MigrationSettings) (name : String) (spec : VirtualMachineSpec) (bs : List NicBinding)
      → spec.desired_power_state ≡ powered_on
      → Keeps P (ensure m o id name spec bs)
  unfolding ensure
  Keeps-ensure_on m name spec bs on = Keeps-then (Keeps-lift _) λ _.
      Gives-bind _ _ (Gives-prepare m spec on) λ prepared still.
        Keeps-then (Keeps-store_record quiet o _ refl) λ _. to_power_lem m _ bs _ refl still

-- If a VM is managed and its VMM does not report Created from now on, then `ensure` with the power on,
-- wherever it fails, leaves the VM with its VMM, spawns no second one and kills none.
pub ensure_spares :
    (m : MigrationSettings) (o : Outside) (id : ℕ) (name : String) (spec : VirtualMachineSpec)
    (bs : List NicBinding) (s : Agent) (vm : ManagedVm)
    → lookup id s.vms ≡ some vm
    → spec.desired_power_state ≡ powered_on
    → ((calls : List Call) → Later s.calls calls → o.info calls vm.vmm.socket ≢ some created)
    → IsSpared id vm.vmm s (ensure m o id name spec bs s).1
ensure_spares m o id name spec bs s vm e on ran =
    (Keeps-ensure_on o id vm.vmm s ran m name spec bs on).at s (record {
      managed = (vm, e, refl);
      same_children = refl;
      none_spawned = refl;
      later = Later.now;
    })
