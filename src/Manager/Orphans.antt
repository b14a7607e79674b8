-- ===== src/Manager/Orphans.antt =====
-- VMM processes that no entry of the manager owns. A process outlives the handle that is dropped.
use vquasar.Base.{ℕ, some, List, [], ◌∷◌, ◌≡◌, ◌≢◌, ◌<◌, refl, All, arith, ◌∙◌, ap}
use vquasar.Base.Action.Keeps.{Keeps, Keeps-then, Keeps-pure}
use vquasar.Manager.{
  Outside, Agent, MigrationSettings, Vmm, ManagedVm, PendingReceive, Call, made, on_dirs, on_vms,
  on_pending, on_children, lookup,
}
use vquasar.Manager.Hypervisor.{resize}
use vquasar.Manager.Files.{release_seed}
use vquasar.Manager.Maps.{insert_finds, remove_finds}
use vquasar.Manager.Local.{Quiet, Closed, ask-Keeps, must-Keeps, Owned}
use vquasar.Manager.Entries.{Entries, Resizes}
use vquasar.Manager.Requests.{Request, vm_of, serve, serve_all}
use vquasar.Manager.Served.{Keeps-serve, Keeps-serve_all}

-- The process `p` was started, and no entry owns it.
pub record IsUnowned (p : ℕ) (s : Agent) : Type 0 where
  pub old : p < s.spawned
  pub unmanaged : (j : ℕ) (m : ManagedVm) → lookup j s.vms ≡ some m → m.vmm.process ≢ some p
  pub unreceived :
      (j : ℕ) (r : PendingReceive) → lookup j s.pending ≡ some r → r.vmm.process ≢ some p

module _ (p : ℕ) where
  abbrev P : Agent → Type 0
  P = IsUnowned p

  -- The processes that the manager may end.
  abbrev Other : ℕ → Type 0
  Other q = q ≢ p

  apart : (v : Vmm) → Owned Other v → v.process ≢ some p
  apart v w e = w p e refl

  owned : (v : Vmm) → v.process ≢ some p → Owned Other v
  owned v w q e = λ same. w (e ∙ ap some same)

  called_lem : (c : Call) (s : Agent) → P s → P (made c s)
  unfolding made
  called_lem c s h = record { old = h.old; unmanaged = h.unmanaged; unreceived = h.unreceived }

  quiet : (id : ℕ) → Quiet id P
  unfolding on_dirs
  quiet id = record {
    called = λ c e. called_lem c;
    dir_made = λ s h. record { old = h.old; unmanaged = h.unmanaged; unreceived = h.unreceived };
    dir_set = λ r s h. record { old = h.old; unmanaged = h.unmanaged; unreceived = h.unreceived };
    dir_gone = λ s h. record { old = h.old; unmanaged = h.unmanaged; unreceived = h.unreceived };
  }

  closed : (id : ℕ) → Closed id Other P
  unfolding on_children
  closed id = record {
    quiet = quiet id;
    started = λ s h. record {
      old = omega (arith, h.old);
      unmanaged = h.unmanaged;
      unreceived = h.unreceived;
    };
    ended = λ q ne s h. record { old = h.old; unmanaged = h.unmanaged; unreceived = h.unreceived };
    exited = λ e s h. record { old = h.old; unmanaged = h.unmanaged; unreceived = h.unreceived };
    fresh = λ s h e. absurd (ground (arith, h.old));
  }

  resize_lem : Resizes P
  unfolding resize
  resize_lem v o cpus ram = must-Keeps o _ (called_lem _) _

  pub entries : (id : ℕ) → Entries id Other P
  unfolding on_vms on_pending
  entries id = record {
    vms = record {
      closed = closed id;
      vm_set = λ m w s h. record {
        old = h.old;
        unreceived = h.unreceived;
        unmanaged =
            insert_finds (λ x. x.vmm.process ≢ some p) id m s.vms (apart m.vmm w) h.unmanaged;
      };
      vm_gone = λ s h. record {
        old = h.old;
        unreceived = h.unreceived;
        unmanaged = λ j m e. h.unmanaged j m (remove_finds id j m s.vms e);
      };
      vm_owned = λ s h m e. owned m.vmm (h.unmanaged id m e);
      resizes = resize_lem;
    };
    recv_set = λ r w s h. record {
      old = h.old;
      unmanaged = h.unmanaged;
      unreceived =
          insert_finds (λ x. x.vmm.process ≢ some p) id r s.pending (apart r.vmm w) h.unreceived;
    };
    recv_gone = λ s h. record {
      old = h.old;
      unmanaged = h.unmanaged;
      unreceived = λ j r e. h.unreceived j r (remove_finds id j r s.pending e);
    };
    recv_owned = λ s h r e. owned r.vmm (h.unreceived id r e);
  }

  serve_lem : (q : Request) (m : MigrationSettings) (o : Outside) → Keeps P (serve m o q)
  unfolding release_seed
  serve_lem q m o =
      Keeps-serve q (entries (vm_of q)) m o
        λ d. Keeps-then (ask-Keeps o _ (called_lem _)) λ _. Keeps-pure tt

-- A VMM process that no entry owns is never owned again, whatever requests follow.
pub serve_all-IsUnowned :
    (m : MigrationSettings) (o : Outside) (p : ℕ) (qs : List Request) (s : Agent)
    → IsUnowned p s
    → IsUnowned p (serve_all m o qs s)
serve_all-IsUnowned m o p qs s h = Keeps-serve_all (IsUnowned p) m o qs (All-all qs) s h
  where
    All-all : (qs : List Request) → All (λ q. Keeps (IsUnowned p) (serve m o q)) qs
    All-all [] = tt
    All-all (q ∷ qs) = (serve_lem p q m o, All-all qs)
