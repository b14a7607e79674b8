-- ===== src/Scheduler/Placing/Capacity.antt =====
-- Placements keep within the capacity of the hosts.
use vquasar.Model.{VirtualMachineSpec}
use vquasar.Scheduler.Placing.Loads.{
  load, vcpus, bytes, committed_by_host_lem, NotAmong, IsKeyed, assign_vm_host-load,
}
use vquasar.Scheduler.Placing.{
  Vm, assigned, assign_vm_host, after_schedule, place, place_unless, place_all, committed_by_host,
}
use vquasar.Scheduler.{HostCommit, commit_of, Host, Floats, VirtualMachineSpec}
use vquasar.Scheduler.Choice.{HasRoom, Suits}
use vquasar.Scheduler.Outcome.{schedule-cases}
use vquasar.Base.Int.{ℤ, pos, negsuc, sub_i64, wrap_i64_self, ◌-ℤ◌, ◌≤ℤ◌, InI64}
use vquasar.Base.{
  none, some, [], ◌∷◌, Option, refl, ℕ, ◌+◌, ◌<◌, ◌≡◌, ◌≤◌, ◌^◌, ◌⊎◌, arith, inl, inr, Bool-cases,
  List, All, subst, sym, ◌==◌, ◌≢◌, Memᴰ, ◌∙◌, ==_iff, ap, All-Memᴰ, str_eq,
}

-- What a host reports, if it does, is a number that is not above its capacity.
abbrev pub NotMore : Option ℤ → ℕ → Type 0
NotMore none capacity = Unit
NotMore (some (pos n)) capacity = n ≤ capacity
NotMore (some (negsuc n)) capacity = ⊥

in_range : (n a : ℕ) → n < 2 ^ 63 → a < 2 ^ 63 → InI64 (pos n -ℤ pos a)
unfolding ◌-ℤ◌
in_range n a x y = ground arith

difference : (n a w : ℕ) → pos w ≤ℤ (pos n -ℤ pos a) → a + w ≤ n ⊎ (w ≡ 0)
unfolding ◌-ℤ◌
difference n a w h = ground (arith, h)

-- The test of one amount.
sub_lem : (n a w c : ℕ) → n ≤ c → c < 2 ^ 63 → a ≤ c → pos w ≤ℤ sub_i64 (pos n) (pos a) → a + w ≤ c
unfolding sub_i64
sub_lem n a w c top small under h =
    let exact = wrap_i64_self (pos n -ℤ pos a) (in_range n a (omega arith) (omega arith)) in
    elim (difference n a w (rw exact at h)) [
      | inl fits ↦ omega arith
      | inr zero_weight ↦ omega arith
    ]

room_lem :
    (spec : VirtualMachineSpec) (commit : HostCommit) (cpus total : Option ℤ) (a b c d : ℕ)
    → HasRoom spec commit cpus total
    → commit.vcpus ≡ pos a
    → commit.memory_bytes ≡ pos b
    → NotMore cpus c
    → NotMore total d
    → c < 2 ^ 63
    → d < 2 ^ 63
    → a ≤ c
    → b ≤ d
    → bytes spec < 2 ^ 63
    → (a + vcpus spec ≤ c) × (b + bytes spec ≤ d)
room_lem spec commit (some (pos n)) (some (pos t)) a b c d (p, q) e f top top' small small' under
      under' fits =
    (
      sub_lem n a (vcpus spec) c top small under (rw e at p),
      sub_lem t b (bytes spec) d top' small' under'
          (rw (f, wrap_i64_self (pos (bytes spec)) fits) at q),
    )
room_lem spec commit none total a b c d room e f top top' small small' under under' fits =
    elim room [ ]
room_lem spec commit (some (pos n)) none a b c d room e f top top' small small' under under' fits =
    elim room [ ]
room_lem spec commit (some (pos n)) (some (negsuc t)) a b c d room e f top top' small small' under
      under' fits =
    elim top' [ ]
room_lem spec commit (some (negsuc n)) total a b c d room e f top top' small small' under under'
      fits =
    elim top [ ]

-- Rows under an assignment.
assigned-id : (id host : ℕ) (r : Vm) → (assigned id host r).id ≡ r.id
assigned-id id host r = elim (Bool-cases (r.id == id)) [
  | inl same ↦ rw same refl
  | inr differ ↦ rw differ refl
]

alone_lem :
    (id host a : ℕ) (rows : List Vm) → NotAmong a rows → NotAmong a (assign_vm_host id host rows)
unfolding assign_vm_host
alone_lem id host a [] h = tt
alone_lem id host a (r ∷ rs) h =
    ((λ e. h.0 (sym (assigned-id id host r) ∙ e)), alone_lem id host a rs h.1)

pub assign_vm_host-IsKeyed :
    (id host : ℕ) (rows : List Vm) → IsKeyed rows → IsKeyed (assign_vm_host id host rows)
unfolding assign_vm_host
assign_vm_host-IsKeyed id host [] h = tt
assign_vm_host-IsKeyed id host (r ∷ rs) h = (
  subst (λ a. NotAmong a (assign_vm_host id host rs)) (sym (assigned-id id host r))
      (alone_lem id host r.id rs h.0),
  assign_vm_host-IsKeyed id host rs h.1,
)

kept_lem :
    (id host : ℕ) (v : Vm) (rows : List Vm)
    → v.id ≢ id
    → Memᴰ v rows
    → Memᴰ v (assign_vm_host id host rows)
unfolding assign_vm_host
kept_lem id host v [] other m = elim m [ ]
kept_lem id host v (r ∷ rs) other (Memᴰ.head q) =
    Memᴰ.head (q ∙ sym (untouched r (λ e. other (ap (λ x. x.id) q ∙ e))))
  where
    untouched : (r : Vm) → r.id ≢ id → assigned id host r ≡ r
    untouched r differ = elim (Bool-cases (r.id == id)) [
      | inl same ↦ absurd (differ ((==_iff r.id id).0 same))
      | inr no_match ↦ rw no_match refl
    ]
kept_lem id host v (r ∷ rs) other (Memᴰ.tail m) = Memᴰ.tail (kept_lem id host v rs other m)

-- The specification's amounts are numbers of an i64.
abbrev pub IsSmall : Vm → Type 0
IsSmall r = bytes r.spec < 2 ^ 63

-- No host has more than its capacity of processors and memory.
abbrev pub IsWithin : (ℕ → ℕ) → (ℕ → ℕ) → List Vm → Type 0
IsWithin cpus memory rows = (k : ℕ) → (load vcpus rows k ≤ cpus k) × (load bytes rows k ≤ memory k)

module _ (f64 : Floats) (hosts : List Host) (pools : ℕ → Option (List ℕ)) (cpus memory : ℕ → ℕ)
    (small : (k : ℕ) → (cpus k < 2 ^ 63) × (memory k < 2 ^ 63))
    (reported : All
      (λ h. NotMore h.logical_cpus (cpus h.id) × NotMore h.total_memory_bytes (memory h.id))
      hosts) where
  abbrev HasReported : Host → Type 0
  HasReported h = NotMore h.logical_cpus (cpus h.id) × NotMore h.total_memory_bytes (memory h.id)

  -- The host that suits a VM has room for it, by its rows.
  at_host :
      (vm : Vm) (h : Host) (rows : List Vm)
      → Memᴰ h hosts
      → Suits vm.spec (committed_by_host rows) pools h
      → IsWithin cpus memory rows
      → IsSmall vm
      → (load vcpus rows h.id + vcpus vm.spec ≤ cpus h.id)
        × (load bytes rows h.id + bytes vm.spec ≤ memory h.id)
  at_host vm h rows mh suits within fits =
      let (c, d) = within h.id in
      let (c_small, d_small) = small h.id in
      let (e, f) = committed_by_host_lem rows h.id (omega arith) (omega arith) in
      let (top, top') = All-Memᴰ HasReported h hosts mh reported in
      room_lem vm.spec (commit_of (committed_by_host rows) h.id) h.logical_cpus h.total_memory_bytes
        (load vcpus rows h.id) (load bytes rows h.id) (cpus h.id) (memory h.id) suits.room e f top
        top' c_small d_small c d fits

  assign_lem :
      (vm : Vm) (h : Host) (rows : List Vm)
      → Memᴰ h hosts
      → Suits vm.spec (committed_by_host rows) pools h
      → IsWithin cpus memory rows
      → IsKeyed rows
      → Memᴰ vm rows
      → vm.host_id ≡ none
      → IsSmall vm
      → IsWithin cpus memory (assign_vm_host vm.id h.id rows)
  assign_lem vm h rows mh suits within keyed m free fits k =
      let cpu_sum = assign_vm_host-load vcpus vm h.id k rows keyed m free in
      let memory_sum = assign_vm_host-load bytes vm h.id k rows keyed m free in
      let (c, d) = within k in
      elim (Bool-cases (k == h.id)) [
        | inr elsewhere ↦
            let cpu_same = rw elsewhere at cpu_sum in
            let memory_same = rw elsewhere at memory_sum in (omega arith, omega arith)
        | inl here ↦
            let cpu_more = rw here at cpu_sum in
            let memory_more = rw here at memory_sum in
            let (x, y) =
              subst
                (λ j.
                  (load vcpus rows j + vcpus vm.spec ≤ cpus j)
                  × (load bytes rows j + bytes vm.spec ≤ memory j))
                (sym ((==_iff k h.id).0 here)) (at_host vm h rows mh suits within fits) in
            (omega arith, omega arith)
      ]

  step_lem :
      (vm : Vm) (rows : List Vm)
      → IsWithin cpus memory rows
      → IsKeyed rows
      → Memᴰ vm rows
      → IsSmall vm
      → (place f64 hosts pools vm rows ≡ rows)
        ⊎ ((h : ℕ) × (place f64 hosts pools vm rows ≡ assign_vm_host vm.id h rows)
            × IsWithin cpus memory (assign_vm_host vm.id h rows))
  unfolding place
  step_lem vm rows within keyed m fits = by_host vm.host_id refl
    where
      by_host :
          (o : Option ℕ)
          → vm.host_id ≡ o
          → (place_unless f64 hosts pools vm o rows ≡ rows)
            ⊎ ((h : ℕ) × (place_unless f64 hosts pools vm o rows ≡ assign_vm_host vm.id h rows)
                × IsWithin cpus memory (assign_vm_host vm.id h rows))
      by_host (some h) e = inl refl
      by_host none e = elim (schedule-cases f64 vm.spec hosts (committed_by_host rows) pools) [
        | inr (why, q, _) ↦ inl (ap (λ r. after_schedule vm.id r rows) q)
        | inl (h, mh, q, suits) ↦ inr (
          h.id,
          ap (λ r. after_schedule vm.id r rows) q,
          assign_lem vm h rows mh suits within keyed m e fits,
        )
      ]

  stays_lem :
      (vm v : Vm) (vms rows : List Vm) (h : ℕ)
      → NotAmong vm.id vms
      → Memᴰ v vms
      → Memᴰ v rows
      → Memᴰ v (assign_vm_host vm.id h rows)
  stays_lem vm v vms rows h alone mv m =
      kept_lem vm.id h v rows (All-Memᴰ (λ r. r.id ≢ vm.id) v vms mv alone) m

  -- A pass over VMs of the table that places those without a host, each by what committed_by_host
  -- then finds, keeps the VMs of each host within its processors and memory, if ids differ, what
  -- hosts report is not above these capacities, the capacities and each VM's memory in bytes are
  -- less than 2^63, and nothing else changes the rows.
  pub place_all-IsWithin :
      (vms rows : List Vm)
      → IsKeyed vms
      → All IsSmall vms
      → ((v : Vm) → Memᴰ v vms → Memᴰ v rows)
      → IsKeyed rows
      → IsWithin cpus memory rows
      → IsWithin cpus memory (place_all f64 hosts pools vms rows)
  unfolding place_all
  place_all-IsWithin [] rows keyed fits inside keys within = within
  place_all-IsWithin (vm ∷ vms) rows (alone, keyed) (fit, fits) inside keys within =
      elim (Bool-cases (str_eq vm.phase "Deleting")) [
        | inl gone ↦
            rw gone
              (place_all-IsWithin vms rows keyed fits (λ v m. inside v (Memᴰ.tail m)) keys within)
        | inr here ↦ elim (step_lem vm rows within keys (inside vm (Memᴰ.head refl)) fit) [
          | inl same ↦
              rw (here, same)
                (place_all-IsWithin vms rows keyed fits (λ v m. inside v (Memᴰ.tail m)) keys within)
          | inr (h, e, after) ↦
              rw (here, e)
                (place_all-IsWithin vms (assign_vm_host vm.id h rows) keyed fits
                  (λ v m. stays_lem vm v vms rows h alone m (inside v (Memᴰ.tail m)))
                  (assign_vm_host-IsKeyed vm.id h rows keys) after)
        ]
      ]
