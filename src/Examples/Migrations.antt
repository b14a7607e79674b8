-- ===== src/Examples/Migrations.antt =====
-- A migration from host 1 to host 2.
use vquasar.Migration.Runs.{Succeeds, handover_lost}
use vquasar.Migration.Order.{IsOrdered, passes, passes-IsOrdered}
use vquasar.Base.{refl, none, some, [], ◌∷◌, true, ◌≡◌}
use vquasar.Base.Result.{ok, err}
use vquasar.Model.{migrating, running}
use vquasar.Migration.{
  pending, finalizing, failed, Vm, Answers, World, reconcile_migrations, task_open, discard_husk,
  finalize_receive,
}

abbrev all_succeed : Answers
all_succeed = record {
  confirm = true;
  get_vm = ok tt;
  get_target = ok tt;
  to_json = ok tt;
  prepare = ok "tcp:host2:4444";
  get_source = ok tt;
  send = ok tt;
  finalize = ok tt;
  discard = ok tt;
  set_running = ok tt;
  advance = ok tt;
  finish_task = ok tt;
  event = ok tt;
  look_up_target = ok tt;
  release = ok tt;
  fail_migration = ok tt;
  set_phase = ok tt;
  fail_task = ok tt;
  fail_event = ok tt;
}

abbrev database_fails : Answers
database_fails = record all_succeed { set_running = err "connection reset" }

abbrev guest : Vm
guest = record { host_id = some 1; phase = migrating }

abbrev start : World
start = record {
  vm = some guest;
  hosts = λ h. true;
  migration = record {
    source_host_id = some 1;
    target_host_id = 2;
    state = pending;
    migration_url = none;
    task_id = some 7;
    message = none;
  };
  task = task_open;
  events = [];
  calls = [];
}

abbrev sent : World
sent = record start {
  migration = record start.migration { state = finalizing; migration_url = some "tcp:host2:4444" };
}

passes-IsOrdered_example : IsOrdered (passes (all_succeed ∷ database_fails ∷ []) start)
passes-IsOrdered_example =
    passes-IsOrdered (all_succeed ∷ database_fails ∷ []) start
      (record { ordered = refl; reached = refl })

every_call : Succeeds all_succeed "tcp:host2:4444"
every_call = record {
  confirm = refl;
  get_vm = refl;
  get_target = refl;
  to_json = refl;
  prepare = refl;
  get_source = refl;
  send = refl;
  finalize = refl;
  set_running = refl;
  advance = refl;
  finish_task = refl;
  event = refl;
}

handover_lost_example :
    let w' = reconcile_migrations database_fails sent in
    (w'.migration.state ≡ failed)
    × (w'.vm ≡ some (record guest { phase = running }))
    × (w'.calls ≡ (discard_husk 1, true) ∷ (finalize_receive 2, true) ∷ [])
handover_lost_example =
    handover_lost database_fails sent guest "connection reset" 1 refl refl refl refl refl refl refl
      refl refl refl refl refl refl refl
