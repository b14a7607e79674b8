-- ===== src/Manager/Recovery.antt =====
-- The inventory that a restarted agent rebuilds from the runtime directories.
use vquasar.Base.{
  ℕ, Option, none, some, List, [], ◌∷◌, ◌≡◌, ◌≢◌, refl, sym, ap, ◌∙◌, is_some, map, Memᴰ, ◌==◌,
  Bool-cases, ==_iff, inl, inr, arith, ◌⊎◌,
}
use vquasar.Base.Result.{Result, ok, err}
use vquasar.Base.Action.{pure, attempt, ◌>>=◌}
use vquasar.Base.Action.Keeps.{
  Keeps, Keeps-then, Keeps-pure, Keeps-if, Keeps-modify, Keeps-attempt, Keeps-gets, Keeps-or_raise,
}
use vquasar.Manager.{
  Outside, Agent, ManagerError, io, ManagedVm, VmRecord, HypervisorState, Dict, lookup, insert,
  on_vms, on_dirs, made, vm_info, Call,
}
use vquasar.Manager.Hypervisor.{current_state}
use vquasar.Manager.Files.{load_record, joined, discover_vm_ids, remove_vm_dir}
use vquasar.Manager.Maps.{lookup-insert_self}
use vquasar.Manager.Local.{Quiet, Keeps-current_state, Keeps-remove_vm_dir}
use vquasar.Manager.Receive.{
  recover, recover_all, recover_one, recover_found, recover_record, attached,
}
use vquasar.Manager.Frame.{Shows}
use vquasar.Manager.Frame

-- The entry that a VM gets: its directory has a record, and its VMM answers.
abbrev pub recovered : ℕ → Option VmRecord → Option HypervisorState → Option ManagedVm
recovered id (some r) (some state) = some (record { record_of = r; vmm = attached id })
recovered id _ _ = none

module _ {id : ℕ} {P : Agent → Type 0} (k : Quiet id P)
    (set : (m : ManagedVm) (s : Agent) → P s → P (on_vms (insert id m) s)) (o : Outside) where
  found_lem : (found : Result ManagerError VmRecord) → Keeps P (recover_found o id found)
  unfolding recover_found recover_record
  found_lem (err e) = Keeps-pure tt
  found_lem (ok r) = Keeps-then (Keeps-current_state k o (attached id)) λ state.
      Keeps-if (is_some state) _ _ (Keeps-modify _ (set _))
        (Keeps-then (Keeps-attempt _ (Keeps-remove_vm_dir k o)) λ _. Keeps-pure tt)

  Keeps-recover_one : Keeps P (recover_one o id)
  unfolding recover_one load_record
  Keeps-recover_one =
      Keeps-then (Keeps-attempt _ (Keeps-then (Keeps-gets _) λ found. Keeps-or_raise io found))
        found_lem

module _ (o : Outside) (alive : ℕ → Option HypervisorState)
    (stable : (calls : List Call) (id : ℕ) → o.info calls id ≡ alive id) (j : ℕ)
    (goal : Option ManagedVm) where
  -- The entry that the VM `j` is to get has been made, or is still missing.
  abbrev IsDue : Agent → Type 0
  IsDue s = recovered j (joined (lookup j s.dirs)) (alive j) ≡ goal

  abbrev IsDone : Agent → Type 0
  IsDone s = IsDue s × (lookup j s.vms ≡ goal)

  abbrev IsMissing : Agent → Type 0
  IsMissing s = IsDue s × (lookup j s.vms ≡ none)

  -- Recovering another VM keeps what is said of the entry and the directory of `j`.
  other_lem :
      (id : ℕ)
      → id ≢ j
      → (vm : Option ManagedVm) → Keeps (λ s. IsDue s × (lookup j s.vms ≡ vm)) (recover_one o id)
  other_lem id ne vm = record {
    at = λ s h.
        let shown =
          (Keeps-recover_one
              (Frame.quiet id j ne (lookup j s.vms) (lookup j s.pending) (lookup j s.dirs))
              (λ m. (Frame.entries id j ne _ _ _).vms.vm_set m λ p e. tt) o).at
            s (record { vms_at = refl; pending_at = refl; dirs_at = refl }) in
        (ap (λ d. recovered j (joined d) (alive j)) shown.dirs_at ∙ h.0, shown.vms_at ∙ h.1);
  }

  unread_lem : (s : Agent) → joined (lookup j s.dirs) ≡ none → recover_one o j s ≡ (ok tt, s)
  unfolding recover_one load_record recover_found ◌>>=◌
  unread_lem s e = rw e refl

  read_lem :
      (s : Agent) (r : VmRecord)
      → joined (lookup j s.dirs) ≡ some r
      → recover_one o j s ≡ recover_record o j r s
  unfolding recover_one load_record recover_found ◌>>=◌
  read_lem s r e = rw e refl

  entry : VmRecord → ManagedVm
  entry r = record { record_of = r; vmm = attached j }

  live_lem :
      (s : Agent) (r : VmRecord) (state : HypervisorState)
      → alive j ≡ some state
      → recover_record o j r s ≡ (ok tt, on_vms (insert j (entry r)) (made (vm_info j) s))
  unfolding recover_record current_state entry ◌>>=◌
  live_lem s r state e = rw (stable s.calls j, e) refl

  -- The answer of a VMM that is dead, and then the removal of the directory.
  dead_lem :
      (s : Agent) (r : VmRecord)
      → alive j ≡ none
      → recover_record o j r s ≡ (attempt (remove_vm_dir o j) >>= λ _. pure tt) (made (vm_info j) s)
  unfolding recover_record current_state ◌>>=◌
  dead_lem s r e = rw (stable s.calls j, e) refl

  vms_quiet : (vms : Dict ManagedVm) → Quiet j (λ s. s.vms ≡ vms)
  unfolding made on_dirs
  vms_quiet vms = record {
    called = λ c e s h. h;
    dir_made = λ s h. h;
    dir_set = λ r s h. h;
    dir_gone = λ s h. h;
  }

  -- No VMM answers, so no entry is due whatever the directory holds.
  none_due : (r : Option VmRecord) → recovered j r none ≡ none
  none_due none = refl
  none_due (some r) = refl

  own_lem :
      (s : Agent)
      → IsDue s
      → (lookup j s.vms ≡ none) ⊎ (lookup j s.vms ≡ goal)
      → IsDone (recover_one o j s).1
  unfolding on_vms made entry
  own_lem s due from = go (joined (lookup j s.dirs)) (alive j) refl refl
    where
      settle : goal ≡ none → lookup j s.vms ≡ goal
      settle e = elim from [ inl missing ↦ missing ∙ sym e | inr done ↦ done ]

      goal_is :
          (r : Option VmRecord) (a : Option HypervisorState)
          → joined (lookup j s.dirs) ≡ r
          → alive j ≡ a
          → goal ≡ recovered j r a
      goal_is r a e f = sym due ∙ rw (e, f) refl

      live :
          (r : VmRecord) (state : HypervisorState)
          → joined (lookup j s.dirs) ≡ some r
          → alive j ≡ some state
          → IsDone (on_vms (insert j (entry r)) (made (vm_info j) s))
      live r state e f =
          (due, lookup-insert_self j (entry r) s.vms ∙ sym (goal_is (some r) (some state) e f))

      dead :
          (r : VmRecord)
          → joined (lookup j s.dirs) ≡ some r
          → alive j ≡ none
          → IsDone ((attempt (remove_vm_dir o j) >>= λ _. pure tt) (made (vm_info j) s)).1
      dead r e f =
          let gone = goal_is (some r) none e f in
          let kept : Keeps (λ t. t.vms ≡ s.vms) (attempt (remove_vm_dir o j) >>= λ _. pure tt) =
            Keeps-then (Keeps-attempt _ (Keeps-remove_vm_dir (vms_quiet s.vms) o))
              λ _. Keeps-pure tt in
          (
            rw f (none_due _) ∙ sym gone,
            ap (λ d. lookup j d) (kept.at (made (vm_info j) s) refl) ∙ settle gone,
          )

      go :
          (r : Option VmRecord) (a : Option HypervisorState)
          → joined (lookup j s.dirs) ≡ r
          → alive j ≡ a
          → IsDone (recover_one o j s).1
      go none a e f = rw (unread_lem s e) (due, settle (goal_is none a e f))
      go (some r) (some state) e f = rw (read_lem s r e, live_lem s r state f) (live r state e f)
      go (some r) none e f = rw (read_lem s r e, dead_lem s r f) (dead r e f)

  done_lem : (id : ℕ) → Keeps IsDone (recover_one o id)
  done_lem id = elim (Bool-cases (id == j)) [
    | inl own ↦
        let same : id ≡ j = (==_iff id j).0 own in
        record { at = λ s h. rw same (own_lem s h.0 (inr h.1)) }
    | inr other ↦ other_lem id (λ same. absurd (ground arith)) goal
  ]

  recover_all-IsDone : (ids : List ℕ) (s : Agent) → IsDone s → IsDone (recover_all o ids s).1
  unfolding recover_all
  recover_all-IsDone ids s h = (go ids).at s h
    where
      go : (ids : List ℕ) → Keeps IsDone (recover_all o ids)
      go [] = Keeps-pure tt
      go (id ∷ ids) = Keeps-then (Keeps-attempt _ (done_lem id)) λ _. go ids

  step_lem :
      (id : ℕ) (ids : List ℕ) (s : Agent)
      → recover_all o (id ∷ ids) s ≡ recover_all o ids (recover_one o id s).1
  unfolding recover_all ◌>>=◌
  step_lem id ids s = refl

  found_first : (ids : List ℕ) (s : Agent) → IsMissing s → IsDone (recover_all o (j ∷ ids) s).1
  found_first ids s h = rw (step_lem j ids s) (recover_all-IsDone ids _ (own_lem s h.0 (inl h.1)))

  reach_lem : (ids : List ℕ) (s : Agent) → Memᴰ j ids → IsMissing s → IsDone (recover_all o ids s).1
  reach_lem [] s m h = elim m [ ]
  reach_lem (id ∷ ids) s (Memᴰ.head e) h = rw (← e) (found_first ids s h)
  reach_lem (id ∷ ids) s (Memᴰ.tail m) h = elim (Bool-cases (id == j)) [
    | inl own ↦ let same : id ≡ j = (==_iff id j).0 own in rw same (found_first ids s h)
    | inr other ↦
        rw (step_lem id ids s)
          (reach_lem ids _ m ((other_lem id (λ same. absurd (ground arith)) none).at s h))
  ]

Memᴰ-keys : {A : Type 0} (j : ℕ) (d : Dict A) → (lookup j d ≡ none) ⊎ Memᴰ j (map (λ e. e.0) d)
Memᴰ-keys j [] = inl refl
Memᴰ-keys j ((i, a) ∷ d) = elim (Bool-cases (j == i)) [
  | inl own ↦ inr (Memᴰ.head ((==_iff j i).0 own))
  | inr other ↦ elim (Memᴰ-keys j d) [
    | inl missing ↦ inl (rw other missing)
    | inr m ↦ inr (Memᴰ.tail m)
  ]
]

-- A restarted agent manages a VM exactly if the VM's directory holds a record that can be read and
-- its VMM answers, and then with that record and the VMM at its socket. It is assumed that a VMM that
-- answers keeps answering the same during the recovery.
pub recover-IsExact :
    (o : Outside) (alive : ℕ → Option HypervisorState) (s : Agent) (j : ℕ)
    → ((calls : List Call) (id : ℕ) → o.info calls id ≡ alive id)
    → s.vms ≡ []
    → lookup j (recover o s).1.vms ≡ recovered j (joined (lookup j s.dirs)) (alive j)
unfolding recover discover_vm_ids ◌>>=◌
recover-IsExact o alive s j stable fresh =
    let missing : lookup j s.vms ≡ none = rw fresh refl in
    elim (Memᴰ-keys j s.dirs) [
      | inl unknown ↦
          (recover_all-IsDone o alive stable j _ (map (λ d. d.0) s.dirs) s
            (refl, missing ∙ rw unknown refl)).1
      | inr m ↦ (reach_lem o alive stable j _ (map (λ d. d.0) s.dirs) s m (refl, missing)).1
    ]
