-- ===== src/Manager/Frame.antt =====
-- What a request on one VM leaves alone.
use vquasar.Base.{ℕ, Option, none, List, ◌≡◌, ◌≢◌, refl, All, arith, ◌∙◌, sym, subst, All-mono}
use vquasar.Base.Action.Keeps.{Keeps, Keeps-then, Keeps-pure}
use vquasar.Manager.{
  Outside, Agent, MigrationSettings, ManagedVm, PendingReceive, VmRecord, Call, lookup, Dict, made,
  on_dirs, on_vms, on_pending, on_children,
}
use vquasar.Manager.Hypervisor.{resize, with_dir}
use vquasar.Manager.Files.{release_seed}
use vquasar.Manager.Maps.{lookup-insert_ne, lookup-remove_ne}
use vquasar.Manager.Local.{Quiet, Closed, ask-Keeps, must-Keeps}
use vquasar.Manager.Entries.{Entries, Resizes}
use vquasar.Manager.Requests.{Request, vm_of, serve, serve_all}
use vquasar.Manager.Served.{Keeps-serve, Keeps-serve_all}

-- The entries of the VM `j` and what its directory holds.
pub record Shows (j : ℕ) (vm : Option ManagedVm) (receiver : Option PendingReceive)
    (dir : Option (Option VmRecord)) (s : Agent) : Type 0 where
  pub vms_at : lookup j s.vms ≡ vm
  pub pending_at : lookup j s.pending ≡ receiver
  pub dirs_at : lookup j s.dirs ≡ dir

with_dir-ne :
    (id j : ℕ) (d : Dict (Option VmRecord)) → id ≢ j → lookup j (with_dir id d) ≡ lookup j d
with_dir-ne id j d h = ground (arith, lookup-insert_ne id j none d h)

module _ (id j : ℕ) (ne : id ≢ j) (vm : Option ManagedVm) (receiver : Option PendingReceive)
    (dir : Option (Option VmRecord)) where
  abbrev P : Agent → Type 0
  P = Shows j vm receiver dir

  anything : (c : Call) (s : Agent) → P s → P (made c s)
  unfolding made
  anything c s h = record { vms_at = h.vms_at; pending_at = h.pending_at; dirs_at = h.dirs_at }

  pub quiet : Quiet id P
  unfolding made on_dirs
  quiet = record {
    called = λ c e. anything c;
    dir_made = λ s h. record {
      vms_at = h.vms_at;
      pending_at = h.pending_at;
      dirs_at = with_dir-ne id j s.dirs ne ∙ h.dirs_at;
    };
    dir_set = λ r s h. record {
      vms_at = h.vms_at;
      pending_at = h.pending_at;
      dirs_at = lookup-insert_ne id j r s.dirs ne ∙ h.dirs_at;
    };
    dir_gone = λ s h. record {
      vms_at = h.vms_at;
      pending_at = h.pending_at;
      dirs_at = lookup-remove_ne id j s.dirs ne ∙ h.dirs_at;
    };
  }

  closed : Closed id (λ p. Unit) P
  unfolding on_children
  closed = record {
    quiet = quiet;
    started = λ s h. record { vms_at = h.vms_at; pending_at = h.pending_at; dirs_at = h.dirs_at };
    ended = λ p u s h. record { vms_at = h.vms_at; pending_at = h.pending_at; dirs_at = h.dirs_at };
    exited = λ e s h. record { vms_at = h.vms_at; pending_at = h.pending_at; dirs_at = h.dirs_at };
    fresh = λ s h. tt;
  }

  resize_lem : Resizes P
  unfolding resize
  resize_lem v o cpus ram = must-Keeps o _ (anything _) _

  pub entries : Entries id (λ p. Unit) P
  unfolding on_vms on_pending
  entries = record {
    vms = record {
      closed = closed;
      vm_set = λ m u s h. record {
        vms_at = lookup-insert_ne id j m s.vms ne ∙ h.vms_at;
        pending_at = h.pending_at;
        dirs_at = h.dirs_at;
      };
      vm_gone = λ s h. record {
        vms_at = lookup-remove_ne id j s.vms ne ∙ h.vms_at;
        pending_at = h.pending_at;
        dirs_at = h.dirs_at;
      };
      vm_owned = λ s h m e p f. tt;
      resizes = resize_lem;
    };
    recv_set = λ p u s h. record {
      vms_at = h.vms_at;
      pending_at = lookup-insert_ne id j p s.pending ne ∙ h.pending_at;
      dirs_at = h.dirs_at;
    };
    recv_gone = λ s h. record {
      vms_at = h.vms_at;
      pending_at = lookup-remove_ne id j s.pending ne ∙ h.pending_at;
      dirs_at = h.dirs_at;
    };
    recv_owned = λ s h m e p f. tt;
  }

  serve_lem :
      (q : Request) → vm_of q ≡ id → (m : MigrationSettings) (o : Outside) → Keeps P (serve m o q)
  unfolding release_seed
  serve_lem q e m o =
      Keeps-serve q (subst (λ i. Entries i (λ p. Unit) P) (sym e) entries) m o
        λ _. Keeps-then (ask-Keeps o _ (anything _)) λ _. Keeps-pure tt

-- Whatever requests on other VMs an agent serves, and however they end, the entry of a VM, its
-- receiver and its directory stay as they are.
pub others_untouched :
    (m : MigrationSettings) (o : Outside) (j : ℕ) (qs : List Request) (s : Agent)
    → All (λ q. vm_of q ≢ j) qs
    → Shows j (lookup j s.vms) (lookup j s.pending) (lookup j s.dirs) (serve_all m o qs s)
others_untouched m o j qs s apart =
    Keeps-serve_all _ m o qs (All-mono qs (λ q ne. serve_lem (vm_of q) j ne _ _ _ q refl m o) apart)
      s (record { vms_at = refl; pending_at = refl; dirs_at = refl })
