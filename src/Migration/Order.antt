-- ===== src/Migration/Order.antt =====
-- The order of the agent calls of one migration, over any passes and any failures.
use vquasar.Base.{
  ℕ, String, refl, true, false, [], ◌∷◌, List, Bool, ◌≡◌, any, not, ◌&&◌, arith, ◌⊎◌, inl, inr,
  if◌then◌else◌,
}
use vquasar.Base.Result.{Result, ok, err}
use vquasar.Migration.{
  pending, sending, finalizing, completed, failed, Call, MigrationState, World, advance_pending,
  advance_sending, update_migration, Answers, finalize_receive, prepare_receive, send_migration,
  Migration, discard_receiver, discard_husk, advance_finalizing, discard_source,
  set_vm_host_running, advance_by, advance_migration, fail_step, release_receiver, set_vm_phase,
  after_step, reconcile_migrations, release_in, reconcile_migration, is_active,
}

abbrev is_send : Call × Bool → Bool
is_send (send_migration h url, b) = true
is_send _ = false

abbrev is_prepared : Call × Bool → Bool
is_prepared (prepare_receive h, b) = b
is_prepared _ = false

abbrev is_delivered : Call × Bool → Bool
is_delivered (send_migration h url, b) = b
is_delivered _ = false

abbrev is_adopted : Call × Bool → Bool
is_adopted (finalize_receive h, b) = b
is_adopted _ = false

-- What must have come before a call: nothing was sent before a receiver is prepared or discarded, a
-- receiver was prepared before the state is sent, the state was sent before the target adopts the
-- guest, and the target adopted it before the source discards its husk.
abbrev pub is_allowed : Call → List (Call × Bool) → Bool
is_allowed (prepare_receive h) older = not (any is_send older)
is_allowed (send_migration h url) older = any is_prepared older
is_allowed (finalize_receive h) older = any is_delivered older
is_allowed (discard_receiver h) older = not (any is_send older)
is_allowed (discard_husk h) older = any is_adopted older

abbrev pub is_ordered : List (Call × Bool) → Bool
is_ordered [] = true
is_ordered ((c, b) ∷ older) = is_allowed c older && is_ordered older

-- What the state of the row says of the calls.
abbrev pub is_reached : MigrationState → List (Call × Bool) → Bool
is_reached pending log = not (any is_send log)
is_reached sending log = any is_prepared log
is_reached finalizing log = any is_delivered log
is_reached completed log = any is_adopted log
is_reached failed log = true

pub record IsOrdered (w : World) : Type 0 where
  pub ordered : is_ordered w.calls ≡ true
  pub reached : is_reached w.migration.state w.calls ≡ true

-- `IsOrdered`, and nothing sent if the row was `Pending`.
abbrev After : MigrationState → World → Type 0
After s w = IsOrdered w × (s ≡ pending → any is_send w.calls ≡ false)

pending_lem :
    (a : Answers) (m : Migration) (w : World)
    → IsOrdered w
    → w.migration.state ≡ pending
    → IsOrdered (advance_pending a m w).1 × (any is_send (advance_pending a m w).1.calls ≡ false)
unfolding advance_pending update_migration
pending_lem a m w h e = (
  record {
    ordered = ground (arith, h.ordered, h.reached);
    reached = ground (arith, h.ordered, h.reached);
  },
  ground (arith, h.ordered, h.reached),
)

sending_lem :
    (a : Answers) (m : Migration) (w : World)
    → IsOrdered w
    → w.migration.state ≡ sending
    → IsOrdered (advance_sending a m w).1
unfolding advance_sending update_migration
sending_lem a m w h e = record {
  ordered = ground (arith, h.ordered, h.reached);
  reached = ground (arith, h.ordered, h.reached);
}

finalizing_lem :
    (a : Answers) (m : Migration) (w : World)
    → IsOrdered w
    → w.migration.state ≡ finalizing
    → IsOrdered (advance_finalizing a m w).1
unfolding advance_finalizing update_migration discard_source set_vm_host_running
finalizing_lem a m w h e = record {
  ordered = ground (arith, h.ordered, h.reached);
  reached = ground (arith, h.ordered, h.reached);
}

advance_by_lem :
    (a : Answers) (m : Migration) (w : World) (s : MigrationState)
    → IsOrdered w
    → w.migration.state ≡ s
    → After s (advance_by a m s w).1
advance_by_lem a m w pending h e = let (o, n) = pending_lem a m w h e in (o, λ q. n)
advance_by_lem a m w sending h e = (sending_lem a m w h e, λ q. cc)
advance_by_lem a m w finalizing h e = (finalizing_lem a m w h e, λ q. cc)
advance_by_lem a m w completed h e = (h, λ q. cc)
advance_by_lem a m w failed h e = (h, λ q. cc)

unmoved_lem : (w : World) (s : MigrationState) → IsOrdered w → w.migration.state ≡ s → After s w
unmoved_lem w s h e = (h, λ q. ground (arith, h.reached))

-- The guards before the arm return the world as it is.
guards_lem :
    (a : Answers) (m : Migration) (w : World)
    → ((advance_migration a m w).1 ≡ w) ⊎ ((advance_migration a m w) ≡ advance_by a m m.state w)
unfolding advance_migration
guards_lem a m w = ground arith

release_in_lem :
    (a : Answers) (target : ℕ) (s : MigrationState) (w : World)
    → After s w
    → IsOrdered (release_in a target s w)
release_in_lem a target pending w (o, n) =
    let unsent = n refl in
    record {
      ordered = ground (arith, o.ordered, o.reached);
      reached = ground (arith, o.ordered, o.reached);
    }
release_in_lem a target sending w h = h.0
release_in_lem a target finalizing w h = h.0
release_in_lem a target completed w h = h.0
release_in_lem a target failed w h = h.0

fail_step_lem :
    (a : Answers) (m : Migration) (e : String) (w : World)
    → After m.state w
    → IsOrdered (fail_step a m e w).1
unfolding fail_step update_migration set_vm_phase release_receiver
fail_step_lem a m e w h =
    let o = release_in_lem a m.target_host_id m.state w h in
    record {
      ordered = ground (arith, o.ordered, o.reached);
      reached = ground (arith, o.ordered, o.reached);
    }

advance_lem :
    (a : Answers) (w : World)
    → IsOrdered w
    → After w.migration.state (advance_migration a w.migration w).1
advance_lem a w h = elim (guards_lem a w.migration w) [
  | inl same ↦ rw same (unmoved_lem w w.migration.state h refl)
  | inr arm ↦ rw arm (advance_by_lem a w.migration w w.migration.state h refl)
]

after_step_lem :
    (a : Answers) (m : Migration) (r : Result String (Unit {0}) × World)
    → After m.state r.1
    → IsOrdered (after_step a m r).1
after_step_lem a m (ok u, w) h = h.0
after_step_lem a m (err e, w) h = fail_step_lem a m e w h

if_lem {ℓ κ} :
    {A : Type ℓ} (P : A → Type κ) (b : Bool) (x y : A) → P x → P y → P (if b then x else y)
if_lem P true x y p q = p
if_lem P false x y p q = q

pass_lem : (a : Answers) (w : World) → IsOrdered w → IsOrdered (reconcile_migrations a w)
unfolding reconcile_migrations reconcile_migration
pass_lem a w h =
    let stepped = after_step a w.migration (advance_migration a w.migration w) in
    if_lem IsOrdered (is_active w.migration.state) (if a.confirm then stepped else (ok tt, w)).1 w
      (if_lem (λ (r : Result String (Unit {0}) × World). IsOrdered r.1) a.confirm stepped (ok tt, w)
        (after_step_lem a w.migration (advance_migration a w.migration w) (advance_lem a w h)) h)
      h

-- Any number of passes, with any answers.
abbrev pub passes : List Answers → World → World
passes [] w = w
passes (a ∷ rest) w = passes rest (reconcile_migrations a w)

-- From a state in which it holds, the order of the calls holds after any passes, whichever calls and
-- statements fail: nothing is sent before a receiver is prepared, the state is sent before the target
-- is told to adopt the guest, the source's husk is discarded only after the target adopted it, and the
-- target's receiver is prepared or discarded only before anything is sent.
pub passes-IsOrdered :
    (answers : List Answers) (w : World) → IsOrdered w → IsOrdered (passes answers w)
passes-IsOrdered [] w h = h
passes-IsOrdered (a ∷ rest) w h = passes-IsOrdered rest (reconcile_migrations a w) (pass_lem a w h)
