-- ===== src/Manager/Served.antt =====
-- The other requests on one VM keep its invariants too, and so do runs of requests.
use vquasar.Base.{
  ℕ, zero, suc, Bool, true, false, String, Option, none, some, List, [], ◌∷◌, ◌≡◌, refl, ◌+◌, All,
}
use vquasar.Base.Action.Keeps.{
  Keeps, Keeps-pure, Keeps-gets, Keeps-modify, Keeps-then, Keeps-if, Keeps-raise, Keeps-or_raise,
  Keeps-attempt, Gives-bind, Gives-or_raise,
}
use vquasar.Model.{VirtualMachineSpec}
use vquasar.Manager.{
  Outside, Agent, ManagedVm, PendingReceive, MigrationSettings, Shared, reclaim, keep_shared,
}
use vquasar.Manager.Files.{release_seed}
use vquasar.Manager.Receive.{
  pick_port, pick_free_port, unix_urls, tcp_urls, receiver_urls, new_receiver, receive_as,
  prepare_receive, adopted, poll, await_received, adopt, finalize_as, finalize_receive,
  release_shared, teardown, delete, discard,
}
use vquasar.Manager.Requests.{Request, vm_of, serve, serve_all}
use vquasar.Manager.Local.{
  Owned, Keeps-ask, Keeps-must, Keeps-shut_down, Keeps-terminate, Gives-launch, Keeps-store_record,
  Keeps-remove_vm_dir, Quiet,
}
use vquasar.Manager.Entries.{Entries, Keeps-observe, release_lem, Gives-recv}
use vquasar.Manager.Kept.{
  Keeps-ensure, Keeps-start, Keeps-stop, Keeps-get, Keeps-send, Gives-managed,
}

module _ {id : ℕ} {P : Agent → Type 0} (k : Quiet id P) (o : Outside) where
  port_lem : (port count : ℕ) → Keeps P (pick_port o port count)
  unfolding pick_port
  port_lem port zero = Keeps-pure none
  port_lem port (suc count) =
      Keeps-then (Keeps-ask k o _ refl)
        λ bound. Keeps-if bound _ _ (Keeps-pure _) (port_lem (port + 1) count)

  pub urls_lem : (m : MigrationSettings) → Keeps P (receiver_urls m o id)
  unfolding receiver_urls unix_urls tcp_urls pick_free_port
  urls_lem m =
      Keeps-if _ _ _
        (Keeps-then (Keeps-must k o _ _ refl)
          λ _. Keeps-then (Keeps-ask k o _ refl) λ _. Keeps-pure _)
        (Keeps-then (port_lem m.port_min _)
          λ free. Keeps-then (Keeps-or_raise _ free) λ port. Keeps-pure _)

module _ {id : ℕ} {Own : ℕ → Type 0} {P : Agent → Type 0} (k : Entries id Own P) (o : Outside) where
  receive_lem :
      (m : MigrationSettings) (name : String) (spec : VirtualMachineSpec)
      (existing : Option PendingReceive)
      → Keeps P (receive_as m o id name spec existing)
  unfolding receive_as new_receiver
  receive_lem m name spec (some p) = Keeps-pure _
  receive_lem m name spec none = Keeps-then (Keeps-store_record k.vms.closed.quiet o _ refl) λ _.
      Gives-bind _ _ (Gives-launch k.vms.closed o []) λ v own.
        Keeps-then (urls_lem k.vms.closed.quiet o m)
          λ urls. Keeps-then (Keeps-modify _ (k.recv_set _ own)) λ _. Keeps-pure _

  await_lem : (p : PendingReceive) → Owned Own p.vmm → Keeps P (await_received o id p)
  unfolding await_received
  await_lem p w = Keeps-if p.polled _ _ (Keeps-raise _) (
      Keeps-then (Keeps-modify _ (k.recv_set (poll p) w))
        λ _. Keeps-must k.vms.closed.quiet o _ _ refl)

  adopt_lem : Keeps P (adopt o id)
  unfolding adopt
  adopt_lem = Gives-bind _ _ (Gives-recv k) λ found w.
      Gives-bind _ _ (Gives-or_raise _ found w) λ p own. Keeps-then (await_lem p own) λ _.
        Keeps-then (Keeps-modify _ k.recv_gone) λ _.
          Keeps-then (Keeps-modify _ (k.vms.vm_set (adopted p) own))
            λ _. Keeps-observe k.vms.closed.quiet o (adopted p)

  finalize_lem : (found : Option ManagedVm) → Keeps P (finalize_as o id found)
  unfolding finalize_as
  finalize_lem none = adopt_lem
  finalize_lem (some m) = Keeps-observe k.vms.closed.quiet o m

  shared_lem :
      (shared : Shared) → Keeps P (release_seed o id) → Keeps P (release_shared o id shared)
  unfolding release_shared
  shared_lem reclaim w = w
  shared_lem keep_shared w = Keeps-pure tt

  pub teardown_lem :
      (shared : Shared) → Keeps P (release_shared o id shared) → Keeps P (teardown o id shared)
  unfolding teardown
  teardown_lem shared w = Keeps-then (Keeps-modify _ k.recv_gone) λ _.
      Gives-bind _ _ (Gives-managed k.vms o) λ m own. Keeps-then (Keeps-modify _ k.vms.vm_gone) λ _.
        Keeps-then (Keeps-attempt _ (Keeps-shut_down k.vms.closed.quiet o m.vmm)) λ _.
          Keeps-then (Keeps-terminate k.vms.closed o m.vmm own) λ _.
            Keeps-then (release_lem k.vms.closed.quiet o 0 _)
              λ _. Keeps-then (Keeps-remove_vm_dir k.vms.closed.quiet o) λ _. w

  pub Keeps-discard : Keeps P (discard o id)
  unfolding discard release_shared
  Keeps-discard = Keeps-then (Keeps-gets _) λ receiver. Keeps-then (Keeps-modify _ k.recv_gone) λ _.
      Keeps-then (Keeps-gets _)
        λ vm. Keeps-if _ _ _ (Keeps-pure tt) (teardown_lem keep_shared (Keeps-pure tt))

  delete_lem : Keeps P (release_seed o id) → Keeps P (delete o id)
  unfolding delete
  delete_lem w = teardown_lem reclaim (shared_lem reclaim w)

  pub Keeps-finalize : Keeps P (finalize_receive o id)
  unfolding finalize_receive
  Keeps-finalize = Keeps-then (Keeps-gets _) finalize_lem

  pub Keeps-prepare_receive :
      (m : MigrationSettings) (name : String) (spec : VirtualMachineSpec)
      → Keeps P (prepare_receive m o id name spec)
  unfolding prepare_receive
  Keeps-prepare_receive m name spec = Keeps-then (Keeps-gets _) (receive_lem m name spec)

abbrev pub is_delete : Request → Bool
is_delete (Request.delete id) = true
is_delete q = false

-- A request other than `delete` keeps the invariant, and `delete` does if removing a seed does.
pub Keeps-serve :
    (q : Request) {Own : ℕ → Type 0} {P : Agent → Type 0}
    → Entries (vm_of q) Own P
    → (m : MigrationSettings) (o : Outside)
    → (is_delete q ≡ true → Keeps P (release_seed o (vm_of q)))
    → Keeps P (serve m o q)
unfolding serve
Keeps-serve (Request.ensure id name spec bs) k m o w =
    Keeps-then (Keeps-ensure k.vms o m name spec bs) λ _. Keeps-pure tt
Keeps-serve (Request.start id) k m o w = Keeps-then (Keeps-start k.vms o) λ _. Keeps-pure tt
Keeps-serve (Request.stop id) k m o w = Keeps-then (Keeps-stop k.vms o) λ _. Keeps-pure tt
Keeps-serve (Request.get id) k m o w = Keeps-then (Keeps-get k.vms o) λ _. Keeps-pure tt
Keeps-serve (Request.delete id) k m o w = delete_lem k o (w refl)
Keeps-serve (Request.finalize_receive id) k m o w =
    Keeps-then (Keeps-finalize k o) λ _. Keeps-pure tt
Keeps-serve (Request.discard id) k m o w = Keeps-discard k o
Keeps-serve (Request.prepare_receive id name spec) k m o w =
    Keeps-then (Keeps-prepare_receive k o m name spec) λ _. Keeps-pure tt
Keeps-serve (Request.send_migration id url) k m o w = Keeps-send k.vms o url

-- What each request of a run keeps, the run keeps.
pub Keeps-serve_all :
    (P : Agent → Type 0) (m : MigrationSettings) (o : Outside) (qs : List Request)
    → All (λ q. Keeps P (serve m o q)) qs
    → (s : Agent) → P s
    → P (serve_all m o qs s)
Keeps-serve_all P m o [] k s h = h
Keeps-serve_all P m o (q ∷ qs) k s h = Keeps-serve_all P m o qs k.1 _ (k.0.at s h)
