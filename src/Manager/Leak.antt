-- ===== src/Manager/Leak.antt =====
-- A receiver that is prepared and then discarded, as the controller does after a migration that failed.
use vquasar.Base.{
  ℕ, String, Option, none, some, List, ◌≡◌, ◌≢◌, ◌<◌, ◌⊎◌, inl, inr, Memᴰ, refl, arith, sym, ◌∷◌,
  ◌∙◌, Option-cases, subst,
}
use vquasar.Base.Action.{◌>>=◌}
use vquasar.Base.Action.Keeps.{
  Keeps, Keeps-then, Keeps-pure, Keeps-gets, Keeps-modify, Keeps-if, Turns, Turns-gets,
  Turns-modify,
}
use vquasar.Model.{VirtualMachineSpec}
use vquasar.Manager.{
  Outside, Agent, MigrationSettings, ManagedVm, PendingReceive, made, on_dirs, on_pending, lookup,
  insert, remove, keep_shared, ◌>>=◌,
}
use vquasar.Manager.Hypervisor.{start_process}
use vquasar.Manager.Maps.{lookup-insert_ne, remove_misses, remove_finds}
use vquasar.Manager.Local.{Quiet, Keeps-launch, Keeps-store_record}
use vquasar.Manager.Receive.{
  prepare_receive, receive_as, new_receiver, discard, release_shared, teardown, get_managed,
}
use vquasar.Manager.Requests.{Request, serve_all}
use vquasar.Manager.Requests
use vquasar.Manager.Served.{urls_lem, teardown_lem}
use vquasar.Manager.Orphans.{IsUnowned, serve_all-IsUnowned, entries}

-- The VM `id` is not managed. At most the receiver of the VM `id` owns the process `p`, which is alive if it was spawned.
pub record IsReceivers (id p : ℕ) (s : Agent) : Type 0 where
  pub spawned_alive : (s.spawned ≡ p) ⊎ ((p < s.spawned) × Memᴰ p s.children)
  pub unhosted : lookup id s.vms ≡ none
  pub unmanaged : (j : ℕ) (m : ManagedVm) → lookup j s.vms ≡ some m → m.vmm.process ≢ some p
  pub unreceived :
      (j : ℕ) (r : PendingReceive) → id ≢ j → lookup j s.pending ≡ some r → r.vmm.process ≢ some p

module _ (id p : ℕ) where
  abbrev P : Agent → Type 0
  P = IsReceivers id p

  quiet : Quiet id P
  unfolding made on_dirs
  quiet = record {
    called = λ c e s h. record {
      spawned_alive = h.spawned_alive;
      unhosted = h.unhosted;
      unmanaged = h.unmanaged;
      unreceived = h.unreceived;
    };
    dir_made = λ s h. record {
      spawned_alive = h.spawned_alive;
      unhosted = h.unhosted;
      unmanaged = h.unmanaged;
      unreceived = h.unreceived;
    };
    dir_set = λ r s h. record {
      spawned_alive = h.spawned_alive;
      unhosted = h.unhosted;
      unmanaged = h.unmanaged;
      unreceived = h.unreceived;
    };
    dir_gone = λ s h. record {
      spawned_alive = h.spawned_alive;
      unhosted = h.unhosted;
      unmanaged = h.unmanaged;
      unreceived = h.unreceived;
    };
  }

  started : (s : Agent) → P s → P (start_process s)
  started s h = record {
    spawned_alive = elim h.spawned_alive [
      | inl next ↦ inr (omega (arith, next), Memᴰ.head (sym next))
      | inr (lt, alive) ↦ inr (omega (arith, lt), Memᴰ.tail alive)
    ];
    unhosted = h.unhosted;
    unmanaged = h.unmanaged;
    unreceived = h.unreceived;
  }

  receiver_set : (r : PendingReceive) (s : Agent) → P s → P (on_pending (insert id r) s)
  unfolding on_pending
  receiver_set r s h = record {
    spawned_alive = h.spawned_alive;
    unhosted = h.unhosted;
    unmanaged = h.unmanaged;
    unreceived = λ j x ne e. h.unreceived j x ne (sym (lookup-insert_ne id j r s.pending ne) ∙ e);
  }

  receive_lem :
      (m : MigrationSettings) (o : Outside) (name : String) (spec : VirtualMachineSpec)
      (found : Option PendingReceive)
      → Keeps P (receive_as m o id name spec found)
  unfolding receive_as new_receiver
  receive_lem m o name spec (some r) = Keeps-pure _
  receive_lem m o name spec none = Keeps-then (Keeps-store_record quiet o _ refl) λ _.
      Keeps-then (Keeps-launch quiet o _ started) λ v.
        Keeps-then (urls_lem quiet o m)
          λ urls. Keeps-then (Keeps-modify _ (receiver_set _)) λ _. Keeps-pure _

  prepare_lem :
      (m : MigrationSettings) (o : Outside) (name : String) (spec : VirtualMachineSpec)
      → Keeps P (prepare_receive m o id name spec)
  unfolding prepare_receive
  prepare_lem m o name spec = Keeps-then (Keeps-gets _) (receive_lem m o name spec)

  -- Without the receiver, nothing owns the process.
  dropped : (s : Agent) → P s × (s.spawned ≢ p) → IsUnowned p (on_pending (remove id) s)
  unfolding on_pending
  dropped s (h, spawned) = elim h.spawned_alive [
    | inl next ↦ absurd (spawned next)
    | inr (lt, alive) ↦ record {
      old = lt;
      unmanaged = h.unmanaged;
      unreceived = λ j r e.
          h.unreceived j r (remove_misses id j r s.pending e) (remove_finds id j r s.pending e);
    }
  ]

  discard_lem : (o : Outside) → Turns (λ s. P s × (s.spawned ≢ p)) (IsUnowned p) (discard o id)
  unfolding discard release_shared
  discard_lem o = Turns-gets _ _ λ receiver. Turns-modify _ _ dropped (
      Keeps-then (Keeps-gets _) λ vm.
        Keeps-if _ _ _ (Keeps-pure tt) (teardown_lem (entries p id) o keep_shared (Keeps-pure tt)))

  alive_lem : (s : Agent) → P s → s.spawned ≢ p → Memᴰ p s.children
  alive_lem s h spawned = elim h.spawned_alive [
    | inl next ↦ absurd (spawned next)
    | inr (lt, alive) ↦ alive
  ]

  -- The discard of a VM that is not managed calls no VMM, so that every process goes on.
  discard_unmanaged :
      (o : Outside) (s : Agent)
      → lookup id s.vms ≡ none
      → ((discard o id s).1.children ≡ s.children) × ((discard o id s).1.calls ≡ s.calls)
  unfolding discard teardown get_managed on_pending ◌>>=◌
  discard_unmanaged o s free = elim (Option-cases (lookup id s.pending)) [
    | inl no_receiver ↦ rw (no_receiver, free) (refl, refl)
    | inr (r, receiver) ↦ rw (receiver, free) (refl, refl)
  ]

-- If prepare_receive spawned a VMM, on a host that does not manage the VM and where no entry owned
-- the process before, then the discard of the VM asks no VMM anything: the process goes on, and no
-- entry owns it, then and after any further requests, whether the receiver had been prepared or its
-- preparation had failed.
pub receiver_leaks :
    (m : MigrationSettings) (o : Outside) (id : ℕ) (name : String) (spec : VirtualMachineSpec)
    (qs : List Request) (s : Agent)
    → IsReceivers id s.spawned s
    → let s' = (prepare_receive m o id name spec s).1 in
      s'.spawned ≢ s.spawned
      → Memᴰ s.spawned (discard o id s').1.children
        × ((discard o id s').1.calls ≡ s'.calls)
        × IsUnowned s.spawned (serve_all m o (Request.discard id ∷ qs) s')
unfolding Requests.serve
receiver_leaks m o id name spec qs s h grew =
    let s' = (prepare_receive m o id name spec s).1 in
    let p = s.spawned in
    let kept = (prepare_lem id p m o name spec).at s h in
    let (same_children, same_calls) = discard_unmanaged id p o s' kept.unhosted in
    (
      subst (λ ps. Memᴰ p ps) (sym same_children) (alive_lem id p s' kept grew),
      same_calls,
      serve_all-IsUnowned m o p qs _ ((discard_lem id p o).at _ (kept, grew)),
    )
