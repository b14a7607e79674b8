-- ===== src/Manager/Kept.antt =====
-- Each request on one VM keeps the invariants that allow for changes of its entries.
use vquasar.Base.{ℕ, String, Option, none, some, List, ◌≡◌, refl}
use vquasar.Base.Result.{Result, ok, err}
use vquasar.Base.Action.{◌>>=◌}
use vquasar.Base.Action.Keeps.{
  Keeps, Gives, Keeps-pure, Keeps-modify, Keeps-then, Keeps-if, Keeps-raise, Keeps-attempt,
  Keeps-lift, Gives-bind, Gives-then, Gives-after, Gives-pure, Gives-or_raise,
}
use vquasar.Model.{VirtualMachineSpec, DesiredPowerState, powered_on, powered_off}
use vquasar.Manager.{
  Outside, Agent, Manage, ⊤, ManagerError, VmRecord, ManagedVm, NicBinding, MigrationSettings,
}
use vquasar.Manager.Ensure.{
  ensure, power_off, manage, discard_vmm, boot_failed, after_boot, power_on, to_power,
}
use vquasar.Manager.Receive.{get_managed, send_migration, start, stop, get}
use vquasar.Manager.Local.{
  Owned, Keeps-must, Keeps-current_state, Keeps-create, Keeps-boot, Keeps-shut_down,
  Keeps-terminate, Gives-launch, Keeps-store_record, Keeps-prepare,
}
use vquasar.Manager.Entries.{
  VmEntries, FoundVm, Keeps-observe, taps_lem, rehome_lem, release_lem, reconfigure_lem,
  stop_found_lem, Gives-vm,
}

module _ {id : ℕ} {Own : ℕ → Type 0} {P : Agent → Type 0} (k : VmEntries id Own P)
    (o : Outside) where
  power_off_lem : (m : MigrationSettings) (r : VmRecord) → r.id ≡ id → Keeps P (power_off m o r)
  unfolding power_off
  power_off_lem m r e = rw e (
      Gives-bind _ _ (Gives-vm k o) λ found w. Keeps-then (Keeps-modify _ k.vm_gone) λ _.
        Keeps-then (stop_found_lem k o found w)
          λ _. Keeps-then (Keeps-prepare k.closed.quiet o m r.spec) λ _. Keeps-pure _)

  -- The entry that `manage` returns owns its process.
  Gives-manage :
      (r : VmRecord) (bs : List NicBinding) (found : Option ManagedVm)
      → r.id ≡ id
      → FoundVm Own found
      → Gives P (λ (m, is_new). Owned Own m.vmm) (manage o r bs found)
  unfolding manage
  Gives-manage r bs (some m) e w =
      rw e (Gives-after (rehome_lem k.closed.quiet o 0 bs) λ _. Gives-pure _ (w m refl))
  Gives-manage r bs none e w = rw e (
      Gives-after (taps_lem k.closed.quiet o 0 bs) λ taps.
        Gives-then _ _ (Gives-launch k.closed o taps)
          λ v own. Gives-after (Keeps-modify _ (k.vm_set _ own)) λ _. Gives-pure _ own)

  discard_vmm_lem : (m : ManagedVm) (nics : ℕ) → Owned Own m.vmm → Keeps P (discard_vmm o id m nics)
  unfolding discard_vmm
  discard_vmm_lem m nics w =
      Keeps-then (Keeps-modify _ k.vm_gone) λ _.
        Keeps-then (Keeps-terminate k.closed o m.vmm w) λ _. release_lem k.closed.quiet o 0 nics

  after_boot_lem :
      (r : VmRecord) (m : ManagedVm) (nics : ℕ) (booted : Result ManagerError ⊤)
      → r.id ≡ id
      → Owned Own m.vmm
      → Keeps P (after_boot o r m nics booted)
  unfolding after_boot boot_failed
  after_boot_lem r m nics (err x) e w = rw e (
      Keeps-then (Keeps-current_state k.closed.quiet o m.vmm) λ state.
        Keeps-then (Keeps-if _ _ _ (discard_vmm_lem m nics w) (Keeps-pure tt)) λ _. Keeps-raise x)
  after_boot_lem r m nics (ok u) e w = rw e (
      Keeps-then (Keeps-observe k.closed.quiet o m)
        λ seen. Keeps-then (Keeps-modify _ (k.vm_set _ w)) λ _. Keeps-pure seen)

  power_on_lem : (r : VmRecord) (bs : List NicBinding) → r.id ≡ id → Keeps P (power_on o r bs)
  unfolding power_on
  power_on_lem r bs e = Gives-bind _ _ (rw e (Gives-vm k o)) λ found w.
      Gives-bind _ _ (Gives-manage r bs found e w) λ (m, is_new) own.
        Keeps-then (Keeps-create k.closed.quiet o m.vmm r.spec) λ _.
          Keeps-then
            (Keeps-if is_new _ _ (Keeps-pure tt)
              (rw e (reconfigure_lem k.closed.quiet o k.resizes m r.spec bs)))
            λ _.
              Keeps-then (Keeps-attempt _ (Keeps-boot k.closed.quiet o m.vmm))
                λ booted. after_boot_lem r m _ booted e own

  to_power_lem :
      (m : MigrationSettings) (r : VmRecord) (bs : List NicBinding) (d : DesiredPowerState)
      → r.id ≡ id
      → Keeps P (to_power m o r bs d)
  unfolding to_power
  to_power_lem m r bs powered_off e = power_off_lem m r e
  to_power_lem m r bs powered_on e = power_on_lem r bs e

  pub Keeps-ensure :
      (m : MigrationSettings) (name : String) (spec : VirtualMachineSpec) (bs : List NicBinding)
      → Keeps P (ensure m o id name spec bs)
  unfolding ensure
  Keeps-ensure m name spec bs = Keeps-then (Keeps-lift _) λ _.
      Keeps-then (Keeps-prepare k.closed.quiet o m spec) λ prepared.
        Keeps-then (Keeps-store_record k.closed.quiet o _ refl) λ _. to_power_lem m _ bs _ refl

  pub Gives-managed : Gives P (λ m. Owned Own m.vmm) (get_managed id)
  unfolding get_managed
  Gives-managed = Gives-then _ _ (Gives-vm k o) λ found w. Gives-or_raise _ found w

  pub with_managed :
      {A : Type 0} (f : ManagedVm → Manage A)
      → ((m : ManagedVm) → Keeps P (f m))
      → Keeps P (get_managed id >>= f)
  with_managed f w = Gives-bind _ f Gives-managed λ m own. w m

  pub Keeps-start : Keeps P (start o id)
  unfolding start
  Keeps-start =
      with_managed _
        λ m. Keeps-then (Keeps-boot k.closed.quiet o m.vmm) λ _. Keeps-observe k.closed.quiet o m

  pub Keeps-stop : Keeps P (stop o id)
  unfolding stop
  Keeps-stop =
      with_managed _ λ m.
        Keeps-then (Keeps-shut_down k.closed.quiet o m.vmm) λ _. Keeps-observe k.closed.quiet o m

  pub Keeps-get : Keeps P (get o id)
  unfolding get
  Keeps-get = with_managed _ λ m. Keeps-observe k.closed.quiet o m

  pub Keeps-send : (url : String) → Keeps P (send_migration o id url)
  unfolding send_migration
  Keeps-send url = with_managed _ λ m. Keeps-must k.closed.quiet o _ _ refl
