-- ===== src/Manager/Once.antt =====
-- The receiver of a migration is prepared at most once.
use vquasar.Base.{
  ℕ, String, Bool, true, false, Option, none, some, List, ◌≡◌, ◌≢◌, refl, ◌∙◌, ap, subst, All,
  All-mono, ◌==◌, ◌&&◌, Bool-cases, inl, inr, arith, ==_iff,
}
use vquasar.Base.Result.{Result, ok, err}
use vquasar.Base.Action.{pure, modify, ◌>>=◌}
use vquasar.Base.Action.Keeps.{Keeps, Keeps-then, Keeps-pure, Ends, Ends-bind, Holds}
use vquasar.Model.{VirtualMachineSpec}
use vquasar.Manager.{
  Outside, Agent, MigrationSettings, PendingReceive, Call, made, on_dirs, on_vms, on_pending,
  on_children, lookup, insert, ManagerError,
}
use vquasar.Manager.Hypervisor.{resize}
use vquasar.Manager.Files.{release_seed}
use vquasar.Manager.Maps.{lookup-insert_ne, lookup-remove_ne, lookup-insert_self}
use vquasar.Manager.Local.{Quiet, Closed, ask-Keeps, must-Keeps}
use vquasar.Manager.Entries.{VmEntries, Entries, Resizes}
use vquasar.Manager.Kept.{Keeps-ensure, Keeps-start, Keeps-stop, Keeps-get, Keeps-send}
use vquasar.Manager.Requests.{Request, vm_of, serve, serve_all}
use vquasar.Manager.Receive.{prepare_receive, receive_as, new_receiver}
use vquasar.Manager.Served.{Keeps-serve, Keeps-serve_all}

-- The requests that end a receiver: the guest was adopted, or the VM is torn down.
abbrev pub ends_receiver : Request → Bool
ends_receiver (Request.delete id) = true
ends_receiver (Request.finalize_receive id) = true
ends_receiver (Request.discard id) = true
ends_receiver q = false

abbrev pub ends_receiver_of : ℕ → Request → Bool
ends_receiver_of j q = (vm_of q == j) && ends_receiver q

module _ (j : ℕ) (r : PendingReceive) where
  abbrev P : Agent → Type 0
  P s = lookup j s.pending ≡ some r

  anything : (c : Call) (s : Agent) → P s → P (made c s)
  unfolding made
  anything c s h = h

  quiet : (id : ℕ) → Quiet id P
  unfolding on_dirs
  quiet id = record {
    called = λ c e. anything c;
    dir_made = λ s h. h;
    dir_set = λ r s h. h;
    dir_gone = λ s h. h;
  }

  closed : (id : ℕ) → Closed id (λ p. Unit) P
  unfolding on_children
  closed id = record {
    quiet = quiet id;
    started = λ s h. h;
    ended = λ p u s h. h;
    exited = λ e s h. h;
    fresh = λ s h. tt;
  }

  resize_lem : Resizes P
  unfolding resize
  resize_lem v o cpus ram = must-Keeps o _ (anything _) _

  vm_entries : (id : ℕ) → VmEntries id (λ p. Unit) P
  unfolding on_vms
  vm_entries id = record {
    closed = closed id;
    vm_set = λ m u s h. h;
    vm_gone = λ s h. h;
    vm_owned = λ s h m e p f. tt;
    resizes = resize_lem;
  }

  entries : (id : ℕ) → id ≢ j → Entries id (λ p. Unit) P
  unfolding on_pending
  entries id ne = record {
    vms = vm_entries id;
    recv_set = λ p u s h. lookup-insert_ne id j p s.pending ne ∙ h;
    recv_gone = λ s h. lookup-remove_ne id j s.pending ne ∙ h;
    recv_owned = λ s h m e p f. tt;
  }

  again_lem :
      (m : MigrationSettings) (o : Outside) (name : String) (spec : VirtualMachineSpec) (s : Agent)
      → P s
      → prepare_receive m o j name spec s ≡ (ok r.return_url, s)
  unfolding prepare_receive receive_as ◌>>=◌
  again_lem m o name spec s h = rw h refl

  other_lem :
      (q : Request) → vm_of q ≢ j → (m : MigrationSettings) (o : Outside) → Keeps P (serve m o q)
  unfolding release_seed
  other_lem q ne m o =
      Keeps-serve q (entries (vm_of q) ne) m o
        λ d. Keeps-then (ask-Keeps o _ (anything _)) λ _. Keeps-pure tt

  own_lem :
      (q : Request)
      → vm_of q ≡ j
      → ends_receiver q ≡ false
      → (m : MigrationSettings) (o : Outside) → Keeps P (serve m o q)
  unfolding serve
  own_lem (Request.ensure id name spec bs) e f m o =
      Keeps-then (Keeps-ensure (vm_entries id) o m name spec bs) λ _. Keeps-pure tt
  own_lem (Request.start id) e f m o = Keeps-then (Keeps-start (vm_entries id) o) λ _. Keeps-pure tt
  own_lem (Request.stop id) e f m o = Keeps-then (Keeps-stop (vm_entries id) o) λ _. Keeps-pure tt
  own_lem (Request.get id) e f m o = Keeps-then (Keeps-get (vm_entries id) o) λ _. Keeps-pure tt
  own_lem (Request.send_migration id url) e f m o = Keeps-send (vm_entries id) o url
  own_lem (Request.prepare_receive id name spec) e f m o =
      Keeps-then (record { at = λ s h. rw (e, again_lem m o name spec s h) h }) λ _. Keeps-pure tt
  own_lem (Request.delete id) e f m o = absurd cc
  own_lem (Request.finalize_receive id) e f m o = absurd cc
  own_lem (Request.discard id) e f m o = absurd cc

  serve_lem :
      (q : Request)
      → ends_receiver_of j q ≡ false
      → (m : MigrationSettings) (o : Outside) → Keeps P (serve m o q)
  serve_lem q f m o = elim (Bool-cases (vm_of q == j)) [
    | inl own ↦ own_lem q ((==_iff (vm_of q) j).0 own) (rw own at f) m o
    | inr other ↦ other_lem q (λ same. absurd (ground arith)) m o
  ]

-- What is left after a preparation that succeeded.
abbrev IsPrepared : ℕ → String → Agent → Type 0
IsPrepared id url s = (r : PendingReceive) × (lookup id s.pending ≡ some r) × (r.return_url ≡ url)

set_lem :
    (id : ℕ) (r : PendingReceive)
    → Ends {E = ManagerError}
        (IsPrepared id)
        (modify (on_pending (insert id r)) >>= λ _. pure r.return_url)
unfolding on_pending ◌>>=◌
set_lem id r = record { at = λ s. (r, lookup-insert_self id r s.pending, refl) }

new_lem :
    (m : MigrationSettings) (o : Outside) (id : ℕ) (name : String) (spec : VirtualMachineSpec)
    → Ends (IsPrepared id) (new_receiver m o id name spec)
unfolding new_receiver
new_lem m o id name spec = Ends-bind _ _ λ _. Ends-bind _ _ λ v. Ends-bind _ _ λ urls. set_lem id _

prepared_lem :
    (m : MigrationSettings) (o : Outside) (id : ℕ) (name : String) (spec : VirtualMachineSpec)
    (s : Agent) (url : String)
    → (prepare_receive m o id name spec s).0 ≡ ok url
    → IsPrepared id url (prepare_receive m o id name spec s).1
unfolding prepare_receive receive_as ◌>>=◌
prepared_lem m o id name spec s url h = go (lookup id s.pending) refl h
  where
    held :
        (r : Result ManagerError String) (t : Agent)
        → Holds (λ u. IsPrepared id u t) r
        → r ≡ ok url
        → IsPrepared id url t
    held (ok u) t w e = let same : u ≡ url = cc in subst (λ x. IsPrepared id x t) same w
    held (err x) t w e = absurd cc

    go :
        (found : Option PendingReceive)
        → lookup id s.pending ≡ found
        → (receive_as m o id name spec found s).0 ≡ ok url
        → IsPrepared id url (receive_as m o id name spec found s).1
    go none e k =
        let (answer, t) = new_receiver m o id name spec s in
        held answer t ((new_lem m o id name spec).at s) k
    go (some r) e k = (r, e, cc)

-- Once a receiver is prepared for a VM, each later preparation returns the same URL and changes
-- nothing, so that it starts no second VMM, whatever requests came between, as long as none of them
-- finalizes, deletes or discards that VM.
pub prepare_receive_once :
    (m : MigrationSettings) (o : Outside) (id : ℕ) (name name' : String)
    (spec spec' : VirtualMachineSpec) (qs : List Request) (s : Agent) (url : String)
    → (prepare_receive m o id name spec s).0 ≡ ok url
    → All (λ q. ends_receiver_of id q ≡ false) qs
    → let s' = serve_all m o qs (prepare_receive m o id name spec s).1 in
      prepare_receive m o id name' spec' s' ≡ (ok url, s')
prepare_receive_once m o id name name' spec spec' qs s url done others =
    let (r, h, same) = prepared_lem m o id name spec s url done in
    let kept =
      Keeps-serve_all (P id r) m o qs (All-mono qs (λ q f. serve_lem id r q f m o) others) _ h in
    again_lem id r m o name' spec' _ kept
    ∙ ap (λ u. (ok u, serve_all m o qs (prepare_receive m o id name spec s).1)) same
