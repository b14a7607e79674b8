-- ===== src/Scheduler/Placing/Loads.antt =====
-- What the VMs of a host amount to, and that `committed_by_host` finds it.
use vquasar.Model.{size_bytes, VirtualMachineSpec}
use vquasar.Scheduler.Placing.{
  Vm, commit_host, commit_vm, commit_all, committed_by_host, assigned, assign_vm_host,
}
use vquasar.Scheduler.{HostCommit, commit_of, size_bytes}
use vquasar.Base.Int.{pos, wrap_i64, add_i64, wrap_i64_self, ◌+ℤ◌}
use vquasar.Base.{
  none, some, [], ◌∷◌, Option, refl, ℕ, List, if◌then◌else◌, ◌+◌, ◌≡◌, str_eq, ◌<◌, ◌==◌, ◌^◌, All,
  Bool-cases, Memᴰ, ap, arith, ◌∙◌, inl, inr, ◌≢◌, ==_iff, subst, sym, All-Memᴰ,
}

abbrev pub on_host : Option ℕ → ℕ → ℕ → ℕ
on_host none k n = 0
on_host (some h) k n = if k == h then n else 0

abbrev pub charge : (VirtualMachineSpec → ℕ) → ℕ → Vm → ℕ
charge weight k r = if str_eq r.phase "Deleting" then 0 else on_host r.host_id k (weight r.spec)

-- The sum of the VMs on a host, each with its weight.
unfoldable pub load : (VirtualMachineSpec → ℕ) → List Vm → ℕ → ℕ
load weight [] k = 0
load weight (r ∷ rs) k = charge weight k r + load weight rs k

abbrev pub vcpus : VirtualMachineSpec → ℕ
vcpus spec = spec.cpu.boot_vcpus

abbrev pub bytes : VirtualMachineSpec → ℕ
bytes spec = size_bytes spec.memory

sum_lem : (a n : ℕ) → pos a +ℤ pos n ≡ pos (a + n)
unfolding ◌+ℤ◌
sum_lem a n = ground arith

add_lem : (a n : ℕ) → a + n < 2 ^ 63 → add_i64 (pos a) (pos n) ≡ pos (a + n)
unfolding add_i64
add_lem a n small = ap wrap_i64 (sum_lem a n) ∙ wrap_i64_self (pos (a + n)) small

-- What the map records for a host.
abbrev pub Records : (ℕ → Option HostCommit) → ℕ → ℕ → ℕ → Type 0
Records m k a b = ((commit_of m k).vcpus ≡ pos a) × ((commit_of m k).memory_bytes ≡ pos b)

more_lem :
    (m : ℕ → Option HostCommit) (vm : Vm) (h a b : ℕ)
    → Records m h a b
    → a + vcpus vm.spec < 2 ^ 63
    → b + bytes vm.spec < 2 ^ 63
    → (add_i64 (commit_of m h).vcpus (pos (vcpus vm.spec)) ≡ pos (a + vcpus vm.spec))
      × (add_i64 (commit_of m h).memory_bytes (wrap_i64 (pos (bytes vm.spec)))
          ≡ pos (b + bytes vm.spec))
more_lem m vm h a b (e, f) x y = (
  ap (λ z. add_i64 z (pos (vcpus vm.spec))) e ∙ add_lem a (vcpus vm.spec) x,
  ap (λ z. add_i64 z (wrap_i64 (pos (bytes vm.spec)))) f
      ∙ ap (add_i64 (pos b)) (wrap_i64_self (pos (bytes vm.spec)) (omega arith))
      ∙ add_lem b (bytes vm.spec) y,
)

host_lem :
    (m : ℕ → Option HostCommit) (vm : Vm) (o : Option ℕ) (k a b : ℕ)
    → Records m k a b
    → a + on_host o k (vcpus vm.spec) < 2 ^ 63
    → b + on_host o k (bytes vm.spec) < 2 ^ 63
    → Records
        (commit_host m vm o)
        k
        (a + on_host o k (vcpus vm.spec))
        (b + on_host o k (bytes vm.spec))
unfolding commit_of
host_lem m vm none k a b (e, f) x y = (e ∙ ap pos (omega arith), f ∙ ap pos (omega arith))
host_lem m vm (some h) k a b (e, f) x y = elim (Bool-cases (k == h)) [
  | inr differ ↦ rw differ (e ∙ ap pos (omega arith), f ∙ ap pos (omega arith))
  | inl same ↦
      let q = (==_iff k h).0 same in
      rw same
        (more_lem m vm h a b (subst (λ j. Records m j a b) q (e, f)) (rw same at x) (rw same at y))
]

vm_lem :
    (m : ℕ → Option HostCommit) (vm : Vm) (k a b : ℕ)
    → Records m k a b
    → a + charge vcpus k vm < 2 ^ 63
    → b + charge bytes k vm < 2 ^ 63
    → Records (commit_vm m vm) k (a + charge vcpus k vm) (b + charge bytes k vm)
vm_lem m vm k a b (e, f) x y = elim (Bool-cases (str_eq vm.phase "Deleting")) [
  | inl gone ↦ rw gone (e ∙ ap pos (omega arith), f ∙ ap pos (omega arith))
  | inr here ↦ rw here (host_lem m vm vm.host_id k a b (e, f) (rw here at x) (rw here at y))
]

all_lem :
    (m : ℕ → Option HostCommit) (vms : List Vm) (k a b : ℕ)
    → Records m k a b
    → a + load vcpus vms k < 2 ^ 63
    → b + load bytes vms k < 2 ^ 63
    → Records (commit_all m vms) k (a + load vcpus vms k) (b + load bytes vms k)
unfolding load
all_lem m [] k a b (e, f) x y = (e ∙ ap pos (omega arith), f ∙ ap pos (omega arith))
all_lem m (vm ∷ vms) k a b r x y =
    let step = vm_lem m vm k a b r (omega arith) (omega arith) in
    let (e, f) =
      all_lem (commit_vm m vm) vms k (a + charge vcpus k vm) (b + charge bytes k vm) step
        (omega arith) (omega arith) in
    (e ∙ ap pos (omega arith), f ∙ ap pos (omega arith))

nothing_lem : (k : ℕ) → Records (λ j. none) k 0 0
unfolding commit_of
nothing_lem k = (refl, refl)

-- If a host's sums are numbers of an i64, they are what the map records.
pub committed_by_host_lem :
    (vms : List Vm) (k : ℕ)
    → load vcpus vms k < 2 ^ 63
    → load bytes vms k < 2 ^ 63
    → Records (committed_by_host vms) k (load vcpus vms k) (load bytes vms k)
unfolding committed_by_host
committed_by_host_lem vms k x y =
    let (e, f) = all_lem (λ j. none) vms k 0 0 (nothing_lem k) (omega arith) (omega arith) in
    (e ∙ ap pos (omega arith), f ∙ ap pos (omega arith))

-- Rows whose ids differ.
abbrev pub NotAmong : ℕ → List Vm → Type 0
NotAmong id rows = All (λ r. r.id ≢ id) rows

abbrev pub IsKeyed : List Vm → Type 0
IsKeyed [] = Unit
IsKeyed (r ∷ rs) = NotAmong r.id rs × IsKeyed rs

absent_lem : (id host : ℕ) (rows : List Vm) → NotAmong id rows → assign_vm_host id host rows ≡ rows
unfolding assign_vm_host
absent_lem id host [] h = refl
absent_lem id host (r ∷ rs) h = elim (Bool-cases (r.id == id)) [
  | inl same ↦ absurd (h.0 ((==_iff r.id id).0 same))
  | inr differ ↦ rw differ (ap (λ xs. r ∷ xs) (absent_lem id host rs h.1))
]

free_lem :
    (weight : VirtualMachineSpec → ℕ) (k : ℕ) (r : Vm) → r.host_id ≡ none → charge weight k r ≡ 0
free_lem weight k r free = elim (Bool-cases (str_eq r.phase "Deleting")) [
  | inl gone ↦ rw gone refl
  | inr here ↦ rw (here, free) refl
]

placed_lem :
    (weight : VirtualMachineSpec → ℕ) (host k : ℕ) (r : Vm)
    → charge weight k (assigned r.id host r) ≡ on_host (some host) k (weight r.spec)
placed_lem weight host k r = rw ((==_iff r.id r.id).1 refl) refl

head_lem :
    (weight : VirtualMachineSpec → ℕ) (r : Vm) (host k : ℕ) (rs : List Vm)
    → NotAmong r.id rs
    → r.host_id ≡ none
    → load weight (assign_vm_host r.id host (r ∷ rs)) k
      ≡ load weight (r ∷ rs) k + on_host (some host) k (weight r.spec)
unfolding assign_vm_host load
head_lem weight r host k rs alone free =
    let here = placed_lem weight host k r in
    let before = free_lem weight k r free in
    let rest = ap (λ xs. load weight xs k) (absent_lem r.id host rs alone) in omega arith

-- An assignment adds the VM to its host, and changes no other host.
pub assign_vm_host-load :
    (weight : VirtualMachineSpec → ℕ) (vm : Vm) (host k : ℕ) (rows : List Vm)
    → IsKeyed rows
    → Memᴰ vm rows
    → vm.host_id ≡ none
    → load weight (assign_vm_host vm.id host rows) k
      ≡ load weight rows k + on_host (some host) k (weight vm.spec)
unfolding assign_vm_host load
assign_vm_host-load weight vm host k [] keyed m free = elim m [ ]
assign_vm_host-load weight vm host k (r ∷ rs) keyed (Memᴰ.head q) free =
    subst
      (λ v.
        load weight (assign_vm_host v.id host (r ∷ rs)) k
        ≡ load weight (r ∷ rs) k + on_host (some host) k (weight v.spec))
      (sym q) (head_lem weight r host k rs keyed.0 (sym (ap (λ v. v.host_id) q) ∙ free))
assign_vm_host-load weight vm host k (r ∷ rs) keyed (Memᴰ.tail m) free =
    let differ = All-Memᴰ (λ v. v.id ≢ r.id) vm rs m keyed.0 in
    let rest = assign_vm_host-load weight vm host k rs keyed.1 m free in
    elim (Bool-cases (r.id == vm.id)) [
      | inl same ↦ absurd (differ (sym ((==_iff r.id vm.id).0 same)))
      | inr other ↦ rw other (omega arith)
    ]
