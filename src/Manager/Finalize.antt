-- ===== src/Manager/Finalize.antt =====
-- The end of a migration on its target: the received VM is adopted, or the receiver stays.
use vquasar.Base.{ℕ, Bool, true, false, none, some, ◌≡◌, refl, ◌⊎◌, inl, inr, ap, ◌∙◌, Bool-cases}
use vquasar.Base.Result.{ok, err}
use vquasar.Base.Action.{◌>>=◌}
use vquasar.Manager.{
  Outside, Agent, hypervisor, ManagedVm, PendingReceive, ObservedVm, lookup, insert, on_vms,
  on_pending, made, ask, must, vm_receive_migration, vm_info,
}
use vquasar.Manager.Maps.{lookup-insert_self, lookup-remove_self}
use vquasar.Manager.Hypervisor.{current_state}
use vquasar.Manager.Ensure.{observe}
use vquasar.Manager.Receive.{finalize_receive, finalize_as, adopt, await_received, adopted, poll}

module _ (o : Outside) (id : ℕ) (p : PendingReceive) (s : Agent)
    (none_managed : lookup id s.vms ≡ none) (prepared : lookup id s.pending ≡ some p) where
  polled_fails : p.polled ≡ true → finalize_receive o id s ≡ (err hypervisor, s)
  unfolding finalize_receive finalize_as adopt await_received ◌>>=◌
  polled_fails e = rw (none_managed, prepared, e) refl

  abbrev asked : Agent
  asked = made (vm_receive_migration id p.recv_url) (on_pending (insert id (poll p)) s)

  abbrev received : Bool
  received = o.accepts s.calls (vm_receive_migration id p.recv_url)

  failed_lem :
      p.polled ≡ false → received ≡ false → finalize_receive o id s ≡ (err hypervisor, asked)
  unfolding finalize_receive finalize_as adopt await_received ◌>>=◌ must ask made on_pending
  failed_lem e f = rw (none_managed, prepared, e, f) refl

  set_lem : lookup id asked.pending ≡ some (poll p)
  unfolding made on_pending
  set_lem = lookup-insert_self id (poll p) s.pending

  managed_none : lookup id asked.vms ≡ none
  unfolding made on_pending
  managed_none = none_managed

  done_lem :
      p.polled ≡ false
      → received ≡ true
      → (seen : ObservedVm) × ((finalize_receive o id s).0 ≡ ok seen)
        × (lookup id (finalize_receive o id s).1.vms ≡ some (adopted p))
        × (lookup id (finalize_receive o id s).1.pending ≡ none)
  unfolding finalize_receive finalize_as adopt await_received ◌>>=◌ must ask made on_pending on_vms
      observe current_state
  done_lem e f =
      rw (none_managed, prepared, e, f)
        (
          _,
          refl,
          lookup-insert_self id (adopted p) s.vms,
          lookup-remove_self id (insert id (poll p) s.pending),
        )

managed_lem :
    (o : Outside) (id : ℕ) (s : Agent) (m : ManagedVm)
    → lookup id s.vms ≡ some m
    → (seen : ObservedVm) × (finalize_receive o id s ≡ (ok seen, made (vm_info m.vmm.socket) s))
unfolding finalize_receive finalize_as observe current_state ◌>>=◌
managed_lem o id s m e = rw e (_, refl)

-- A VM that is not managed yet and has a receiver: `finalize_receive` adopts it and drops the receiver, and
-- a second call then succeeds and only asks for its state; or the call fails and the receiver stays with
-- its VMM, and a second call then fails and changes nothing.
pub finalize-cases :
    (o : Outside) (id : ℕ) (p : PendingReceive) (s : Agent)
    → lookup id s.vms ≡ none
    → lookup id s.pending ≡ some p
    → let (answer, s') = finalize_receive o id s in
      ((seen : ObservedVm) × (answer ≡ ok seen)
        × (lookup id s'.vms ≡ some (adopted p))
        × (lookup id s'.pending ≡ none)
        × ((again : ObservedVm) × (finalize_receive o id s'
              ≡ (ok again, made (vm_info p.vmm.socket) s'))))
      ⊎ ((answer ≡ err hypervisor)
          × (lookup id s'.vms ≡ none)
          × (lookup id s'.pending ≡ some (poll p))
          × (finalize_receive o id s' ≡ (err hypervisor, s')))
finalize-cases o id p s e f = elim (Bool-cases p.polled) [
  | inl polled ↦
      let fails = polled_fails o id p s e f polled in
      inr (rw fails (refl, e, f ∙ ap (λ b. some (record p { polled = b })) polled, fails))
  | inr fresh ↦ elim (Bool-cases (received o id p s e f)) [
    | inl done ↦
        let (seen, a, b, c) = done_lem o id p s e f fresh done in
        inl (seen, a, b, c, managed_lem o id _ _ b)
    | inr lost ↦
        let fails = failed_lem o id p s e f fresh lost in
        let set = set_lem o id p s e f in
        let none_yet = managed_none o id p s e f in
        inr (rw fails (refl, none_yet, set, polled_fails o id (poll p) _ none_yet set refl))
  ]
]
