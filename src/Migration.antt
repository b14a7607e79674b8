-- ===== src/Migration.antt =====
-- services/control/src/reconcile.rs: the live migration of one VM, `reconcile_migrations` with
-- `advance_migration` and `release_receiver`, on the rows of the VM, the migration and its task. Each
-- call of an agent and each query ends as the argument `Answers` says; a query that fails changes
-- nothing. What an agent does on a call is not modelled: the calls are recorded with their outcome.
pub mod Order
pub mod Runs
use vquasar.Base.{
  String, ℕ, List, Option, Bool, none, some, [], ◌∷◌, true, false, if◌then◌else◌, is_some,
}
use vquasar.Base.Result.{Result, ok, err, is_ok}
use vquasar.Model.{VmPhase, running}

pub data MigrationState : Type 0 where
  pending sending finalizing completed failed : MigrationState

pub record Migration : Type 0 where
  pub source_host_id : Option ℕ
  pub target_host_id : ℕ
  pub state : MigrationState
  pub migration_url : Option String
  pub task_id : Option ℕ
  pub message : Option String

pub record Vm : Type 0 where
  pub host_id : Option ℕ
  pub phase : VmPhase

pub data TaskState : Type 0 where
  task_open task_failed task_succeeded : TaskState

-- Calls of the agent on a host. The two `discard_vm` calls are apart: that of `release_receiver` on the
-- target, and that of the husk on the source.
pub data Call : Type 0 where
  prepare_receive : ℕ → Call
  send_migration : ℕ → String → Call
  finalize_receive : ℕ → Call
  discard_receiver : ℕ → Call
  discard_husk : ℕ → Call

-- `calls` has the newest call first, each with whether it succeeded.
pub record World : Type 0 where
  pub vm : Option Vm
  pub hosts : ℕ → Bool
  pub migration : Migration
  pub task : TaskState
  pub events : List String
  pub calls : List (Call × Bool)

-- How the calls and queries of one pass end, in the order of the source: those of `advance_migration`,
-- then those after it failed.
pub record Answers : Type 0 where
  pub confirm : Bool
  pub get_vm : Result String (Unit {0})
  pub get_target : Result String (Unit {0})
  pub to_json : Result String (Unit {0})
  pub prepare : Result String String
  pub get_source : Result String (Unit {0})
  pub send : Result String (Unit {0})
  pub finalize : Result String (Unit {0})
  pub discard : Result String (Unit {0})
  pub set_running : Result String (Unit {0})
  pub advance : Result String (Unit {0})
  pub finish_task : Result String (Unit {0})
  pub event : Result String (Unit {0})
  pub look_up_target : Result String (Unit {0})
  pub release : Result String (Unit {0})
  pub fail_migration : Result String (Unit {0})
  pub set_phase : Result String (Unit {0})
  pub fail_task : Result String (Unit {0})
  pub fail_event : Result String (Unit {0})

-- Code that reads and writes the world and may return an error.
abbrev pub Action {ℓ} : Type ℓ → Type ℓ
Action A = World → Result String A × World

infixl 5 ◌>>=◌ ◌>>◌
abbrev pub ◌>>=◌ {ℓ κ} : {A : Type ℓ} {B : Type κ} → Action A → (A → Action B) → Action B
(m >>= f) w = let (r, w') = m w in elim r [ ok a ↦ f a w' | err e ↦ (err e, w') ]

abbrev pub ◌>>◌ {ℓ} : {B : Type ℓ} → Action (Unit {0}) → Action B → Action B
m >> k = m >>= λ _. k

abbrev pub answer {ℓ} : {A : Type ℓ} → Result String A → Action A
answer r w = (r, w)

-- A statement that writes, if it succeeds.
abbrev pub write : Result String (Unit {0}) → (World → World) → Action (Unit {0})
write (ok u) f w = (ok u, f w)
write (err e) f w = (err e, w)

abbrev pub call {ℓ} : {A : Type ℓ} → Call → Result String A → Action A
call c r w = (r, record w { calls = (c, is_ok r) ∷ w.calls })

abbrev pub found : Bool → String → Action (Unit {0})
found true e w = (ok tt, w)
found false e w = (err e, w)

abbrev pub nothing : Action (Unit {0})
nothing w = (ok tt, w)

abbrev pub present {ℓ} : {A : Type ℓ} → Option A → String → Action A
present none e w = (err e, w)
present (some a) e w = (ok a, w)

abbrev or_else : Option String → Option String → Option String
or_else none old = old
or_else (some url) old = some url

unfoldable pub update_migration : MigrationState → Option String → Option String → World → World
update_migration state url message w = record w {
  migration = record w.migration {
    state = state;
    migration_url = or_else url w.migration.migration_url;
    message = message;
  };
}

abbrev move_vm : ℕ → Option Vm → Option Vm
move_vm host none = none
move_vm host (some vm) = some (record { host_id = some host; phase = running })

unfoldable pub set_vm_host_running : ℕ → World → World
set_vm_host_running host w = record w { vm = move_vm host w.vm }

abbrev in_phase : VmPhase → Option Vm → Option Vm
in_phase phase none = none
in_phase phase (some vm) = some (record vm { phase = phase })

unfoldable pub set_vm_phase : VmPhase → World → World
set_vm_phase phase w = record w { vm = in_phase phase w.vm }

abbrev pub update_task : Option ℕ → Result String (Unit {0}) → TaskState → Action (Unit {0})
update_task none r s = nothing
update_task (some id) r s = write r (λ w. record w { task = s })

abbrev pub insert_event : String → World → World
insert_event e w = record w { events = e ∷ w.events }

-- The arms of `advance_migration`.
unfoldable pub advance_pending : Answers → Migration → Action (Unit {0})
advance_pending a m = do
  answer a.to_json
  url ← call (prepare_receive m.target_host_id) a.prepare
  write a.advance (update_migration sending (some url) none)
  write a.event (insert_event "migration.started")

abbrev pub has_host : ℕ → String → Action (Unit {0})
has_host id e w = found (w.hosts id) e w

unfoldable pub advance_sending : Answers → Migration → Action (Unit {0})
advance_sending a m = do
  source_id ← present m.source_host_id "migration has no source host"
  answer a.get_source
  has_host source_id "source host gone"
  url ← present m.migration_url "no migration url"
  call (send_migration source_id url) a.send
  write a.advance (update_migration finalizing none none)

-- The discard's own failure is only logged.
abbrev discard_at : Answers → ℕ → Bool → Action (Unit {0})
discard_at a source_id false w = (ok tt, w)
discard_at a source_id true w = (ok tt, (call (discard_husk source_id) a.discard w).1)

unfoldable pub discard_source : Answers → Option ℕ → Action (Unit {0})
discard_source a none = nothing
discard_source a (some source_id) =
    answer a.get_source >> λ w. discard_at a source_id (w.hosts source_id) w

unfoldable pub advance_finalizing : Answers → Migration → Action (Unit {0})
advance_finalizing a m = do
  call (finalize_receive m.target_host_id) a.finalize
  discard_source a m.source_host_id
  write a.set_running (set_vm_host_running m.target_host_id)
  write a.advance (update_migration completed none none)
  update_task m.task_id a.finish_task task_succeeded
  write a.event (insert_event "migration.completed")

abbrev pub advance_by : Answers → Migration → MigrationState → Action (Unit {0})
advance_by a m pending = advance_pending a m
advance_by a m sending = advance_sending a m
advance_by a m finalizing = advance_finalizing a m
advance_by a m completed = nothing
advance_by a m failed = nothing

abbrev pub has_vm : Action (Unit {0})
has_vm w = found (is_some w.vm) "vm gone" w

unfoldable pub advance_migration : Answers → Migration → Action (Unit {0})
advance_migration a m = do
  answer a.get_vm
  has_vm
  answer a.get_target
  has_host m.target_host_id "target host gone"
  advance_by a m m.state

-- Only from `Pending`; no failure of it is passed on.
abbrev release_at : Answers → ℕ → Result String (Unit {0}) → World → World
release_at a target (err e) w = w
release_at a target (ok u) w =
    if w.hosts target then (call (discard_receiver target) a.release w).1 else w

abbrev pub release_in : Answers → ℕ → MigrationState → World → World
release_in a target pending w = release_at a target a.look_up_target w
release_in a target sending w = w
release_in a target finalizing w = w
release_in a target completed w = w
release_in a target failed w = w

unfoldable pub release_receiver : Answers → Migration → World → World
release_receiver a m w = release_in a m.target_host_id m.state w

-- What `reconcile_migrations` does with a migration whose step failed.
unfoldable pub fail_step : Answers → Migration → String → Action (Unit {0})
fail_step a m e w =
    (do
      write a.fail_migration (update_migration failed none (some e))
      write a.set_phase (set_vm_phase running)
      update_task m.task_id a.fail_task task_failed
      write a.fail_event (insert_event "migration.failed"))
      (release_receiver a m w)

abbrev pub after_step :
    Answers → Migration → Result String (Unit {0}) × World → Result String (Unit {0}) × World
after_step a m (ok u, w) = (ok tt, w)
after_step a m (err e, w) = fail_step a m e w

-- The body of the loop of `reconcile_migrations`, for the row that `list_active_migrations` returned.
unfoldable pub reconcile_migration : Answers → Migration → Action (Unit {0})
reconcile_migration a m w =
    if a.confirm then after_step a m (advance_migration a m w) else (ok tt, w)

-- `list_active_migrations`.
abbrev pub is_active : MigrationState → Bool
is_active pending = true
is_active sending = true
is_active finalizing = true
is_active completed = false
is_active failed = false

-- One pass over the one migration, from the row as it is.
unfoldable pub reconcile_migrations : Answers → World → World
reconcile_migrations a w =
    if is_active w.migration.state then (reconcile_migration a w.migration w).1 else w
