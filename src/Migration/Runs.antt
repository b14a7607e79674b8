-- ===== src/Migration/Runs.antt =====
-- A migration that succeeds, and one that fails after the target has the guest.
use vquasar.Migration.Order.{passes}
use vquasar.Base.{ℕ, String, true, [], ◌∷◌, some, none, Option, is_some, ◌≡◌, arith}
use vquasar.Base.Result.{ok, err}
use vquasar.Model.{running}
use vquasar.Migration.{
  pending, sending, finalizing, completed, failed, Answers, World, reconcile_migrations, Vm,
  reconcile_migration, advance_migration, advance_finalizing, advance_pending, discard_source,
  update_migration, fail_step, set_vm_phase, release_receiver, discard_husk, finalize_receive,
  advance_sending, set_vm_host_running,
}

-- Every call and statement of a pass that moves the migration on succeeds.
pub record Succeeds (a : Answers) (url : String) : Type 0 where
  pub confirm : a.confirm ≡ true
  pub get_vm : a.get_vm ≡ ok tt
  pub get_target : a.get_target ≡ ok tt
  pub to_json : a.to_json ≡ ok tt
  pub prepare : a.prepare ≡ ok url
  pub get_source : a.get_source ≡ ok tt
  pub send : a.send ≡ ok tt
  pub finalize : a.finalize ≡ ok tt
  pub set_running : a.set_running ≡ ok tt
  pub advance : a.advance ≡ ok tt
  pub finish_task : a.finish_task ≡ ok tt
  pub event : a.event ≡ ok tt

-- The VM and both hosts are there.
pub record IsReady (w : World) (source target : ℕ) : Type 0 where
  pub vm : is_some w.vm ≡ true
  pub source_host_id : w.migration.source_host_id ≡ some source
  pub target_host_id : w.migration.target_host_id ≡ target
  pub source_there : w.hosts source ≡ true
  pub target_there : w.hosts target ≡ true

abbrev pub IsHosted : ℕ → Option Vm → Type 0
IsHosted target none = ⊥
IsHosted target (some vm) = (vm.host_id ≡ some target) × (vm.phase ≡ running)

pending_pass :
    (a : Answers) (url : String) (w : World) (source target : ℕ)
    → Succeeds a url
    → IsReady w source target
    → w.migration.state ≡ pending
    → let w' = reconcile_migrations a w in
      (w'.migration.state ≡ sending)
      × (w'.migration.migration_url ≡ some url)
      × IsReady w' source target
unfolding reconcile_migrations reconcile_migration advance_migration advance_pending
    update_migration
pending_pass a url w source target s r e = (
  ground arith,
  ground arith,
  record {
    vm = ground arith;
    source_host_id = ground arith;
    target_host_id = ground arith;
    source_there = ground arith;
    target_there = ground arith;
  },
)

sending_pass :
    (a : Answers) (url url_b : String) (w : World) (source target : ℕ)
    → Succeeds a url_b
    → IsReady w source target
    → w.migration.state ≡ sending
    → w.migration.migration_url ≡ some url
    → let w' = reconcile_migrations a w in
      (w'.migration.state ≡ finalizing) × IsReady w' source target
unfolding reconcile_migrations reconcile_migration advance_migration advance_sending
    update_migration
sending_pass a url url_b w source target s r e u = (
  ground arith,
  record {
    vm = ground arith;
    source_host_id = ground arith;
    target_host_id = ground arith;
    source_there = ground arith;
    target_there = ground arith;
  },
)

finalizing_pass :
    (a : Answers) (url : String) (w : World) (source target : ℕ)
    → Succeeds a url
    → IsReady w source target
    → w.migration.state ≡ finalizing
    → let w' = reconcile_migrations a w in (w'.migration.state ≡ completed) × IsHosted target w'.vm
unfolding reconcile_migrations reconcile_migration advance_migration advance_finalizing
    discard_source update_migration set_vm_host_running
finalizing_pass a url w source target s r e = (ground arith, ground arith)

-- From `Pending`, with the VM and both hosts there, three passes whose calls and statements succeed complete the migration,
-- and the VM's row names the target.
pub three_passes_complete :
    (a b c : Answers) (url url_b url_c : String) (w : World) (source target : ℕ)
    → Succeeds a url
    → Succeeds b url_b
    → Succeeds c url_c
    → IsReady w source target
    → w.migration.state ≡ pending
    → let w' = passes (a ∷ b ∷ c ∷ []) w in (w'.migration.state ≡ completed) × IsHosted target w'.vm
three_passes_complete a b c url url_b url_c w source target sa sb sc r e =
    let (e₁, u₁, r₁) = pending_pass a url w source target sa r e in
    let (e₂, r₂) = sending_pass b url url_b (reconcile_migrations a w) source target sb r₁ e₁ u₁ in
    finalizing_pass c url_c (reconcile_migrations b (reconcile_migrations a w)) source target sc r₂
      e₂

-- If `set_vm_host_running` fails after the target adopted the guest and the source discarded its husk,
-- and the statements after it succeed, the migration is `Failed` and the VM's row says that it runs
-- where it was.
pub handover_lost :
    (a : Answers) (w : World) (vm : Vm) (e : String) (source : ℕ)
    → w.vm ≡ some vm
    → w.hosts w.migration.target_host_id ≡ true
    → w.hosts source ≡ true
    → w.migration.source_host_id ≡ some source
    → w.migration.state ≡ finalizing
    → a.confirm ≡ true
    → a.get_vm ≡ ok tt
    → a.get_target ≡ ok tt
    → a.finalize ≡ ok tt
    → a.get_source ≡ ok tt
    → a.discard ≡ ok tt
    → a.set_running ≡ err e
    → a.fail_migration ≡ ok tt
    → a.set_phase ≡ ok tt
    → let w' = reconcile_migrations a w in
      (w'.migration.state ≡ failed)
      × (w'.vm ≡ some (record vm { phase = running }))
      × (w'.calls
          ≡ (discard_husk source, true)
            ∷ (finalize_receive w.migration.target_host_id, true)
            ∷ w.calls)
unfolding reconcile_migrations reconcile_migration advance_migration advance_finalizing
    discard_source fail_step update_migration set_vm_phase release_receiver
handover_lost a w vm e source h₁ h₂ h₃ h₄ h₅ h₆ h₇ h₈ h₉ h₁₀ h₁₁ h₁₂ h₁₃ h₁₄ = ground arith
