-- ===== src/Manager/Seeds.antt =====
-- The cloud-init seed of a VM on shared storage, which a host that the VM has left must not remove.
use vquasar.Base.{ℕ, Bool, true, false, List, ◌≡◌, refl, All, All-mono, keep, ◌==◌, ◌&&◌, ◌||◌, not}
use vquasar.Base.Action.Keeps.{Keeps, Keeps-then, Keeps-pure}
use vquasar.Manager.{
  Outside, Agent, MigrationSettings, Call, remove_seed, made, on_dirs, on_vms, on_pending,
  on_children,
}
use vquasar.Manager.Hypervisor.{resize}
use vquasar.Manager.Files.{release_seed}
use vquasar.Manager.Local.{Quiet, Closed, is_remove_seed, is_resize, plain, ask-Keeps, must-Keeps}
use vquasar.Manager.Entries.{Entries, Resizes}
use vquasar.Manager.Requests.{Request, vm_of, serve, serve_all}
use vquasar.Manager.Served.{Keeps-serve, Keeps-serve_all, is_delete}

abbrev pub seed_id : Call → ℕ
seed_id (remove_seed id) = id
seed_id c = 0

-- The removals of the seed of the VM `j`.
abbrev pub removes_seed_of : ℕ → Call → Bool
removes_seed_of j c = is_remove_seed c && (seed_id c == j)

abbrev pub seed_removals : ℕ → Agent → List Call
seed_removals j s = keep (removes_seed_of j) s.calls

abbrev pub is_delete_of : ℕ → Request → Bool
is_delete_of j q = is_delete q && (vm_of q == j)

module _ (j : ℕ) (c : List Call) where
  abbrev P : Agent → Type 0
  P s = seed_removals j s ≡ c

  called_lem : (x : Call) → removes_seed_of j x ≡ false → (s : Agent) → P s → P (made x s)
  unfolding made
  called_lem x e s h = rw e h

  plain_lem : (x : Call) → plain x ≡ true → removes_seed_of j x ≡ false
  plain_lem x e = go (is_resize x) (is_remove_seed x) (seed_id x == j) e
    where
      go : (a b d : Bool) → not (a || b) ≡ true → (b && d) ≡ false
      go a false d e = refl
      go true true d e = cc
      go false true d e = cc

  quiet : (id : ℕ) → Quiet id P
  unfolding on_dirs
  quiet id = record {
    called = λ x e. called_lem x (plain_lem x e);
    dir_made = λ s h. h;
    dir_set = λ r s h. h;
    dir_gone = λ s h. h;
  }

  closed : (id : ℕ) → Closed id (λ p. Unit) P
  unfolding on_children
  closed id = record {
    quiet = quiet id;
    started = λ s h. h;
    ended = λ p u s h. h;
    exited = λ e s h. h;
    fresh = λ s h. tt;
  }

  resize_lem : Resizes P
  unfolding resize
  resize_lem v o cpus ram = must-Keeps o _ (called_lem _ refl) _

  entries : (id : ℕ) → Entries id (λ p. Unit) P
  unfolding on_vms on_pending
  entries id = record {
    vms = record {
      closed = closed id;
      vm_set = λ m u s h. h;
      vm_gone = λ s h. h;
      vm_owned = λ s h m e p f. tt;
      resizes = resize_lem;
    };
    recv_set = λ p u s h. h;
    recv_gone = λ s h. h;
    recv_owned = λ s h m e p f. tt;
  }

  serve_lem :
      (q : Request)
      → is_delete_of j q ≡ false
      → (m : MigrationSettings) (o : Outside) → Keeps P (serve m o q)
  unfolding release_seed
  serve_lem q e m o =
      Keeps-serve q (entries (vm_of q)) m o
        λ d. Keeps-then (ask-Keeps o _ (called_lem _ (rw d at e))) λ _. Keeps-pure tt

-- As long as no request deletes a VM, no request removes its cloud-init seed, which is on shared
-- storage: not the discard after a migration, and no failure either.
pub seed_kept :
    (m : MigrationSettings) (o : Outside) (j : ℕ) (qs : List Request) (s : Agent)
    → All (λ q. is_delete_of j q ≡ false) qs
    → seed_removals j (serve_all m o qs s) ≡ seed_removals j s
seed_kept m o j qs s others =
    Keeps-serve_all (λ t. seed_removals j t ≡ seed_removals j s) m o qs
      (All-mono qs (λ q e. serve_lem j (seed_removals j s) q e m o) others) s refl
