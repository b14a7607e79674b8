-- ===== src/Quota/Stale.antt =====
-- `write_spec` charges an edit against the spec that it read before it took the project's lock.
use vquasar.Model.{VirtualMachineSpec}
use vquasar.Quota.Check.{NonPositive, shrinking_admitted}
use vquasar.Quota.{
  admit, delta, write_spec_after, Amounts, VmRow, Database, set_spec, Limits, of_vm, admit_with,
  usage_in, VirtualMachineSpec, find_vm,
}
use vquasar.Base.Int.{sub_i64, ◌-ℤ◌, wrap_i64, ℤ, pos, negsuc}
use vquasar.Base.{
  true, false, refl, none, some, arith, ℕ, ◌≡◌, Option, some, none, refl, List, ◌⊎◌, Option-cases,
  ◌∷◌, Bool, inl, if◌then◌else◌, inr, ◌==◌, ap, [], true,
}
use vquasar.Base.Result.{ok}

sub_self : (a : ℤ) → sub_i64 a a ≡ pos 0
unfolding sub_i64 ◌-ℤ◌ wrap_i64
sub_self (pos n) = ground arith
sub_self (negsuc n) = ground arith

delta_self : (a : Amounts) → NonPositive (delta a a)
unfolding delta
delta_self a =
    rw
      (
        sub_self a.vms,
        sub_self a.vcpus,
        sub_self a.memory_mib,
        sub_self a.volumes,
        sub_self a.storage_bytes,
      )
      (omega arith, omega arith, omega arith, omega arith, omega arith)

nonpositive_admitted :
    (project : ℕ) (db : Database) (demand : Amounts)
    → NonPositive demand
    → admit project db demand ≡ ok tt
unfolding admit
nonpositive_admitted project db demand n = cases (db.quotas project)
  where
    cases : (o : Option Limits) → admit_with project db demand o ≡ ok tt
    cases none = refl
    cases (some limits) =
        let passed = shrinking_admitted limits (usage_in project db) demand n in ground arith

missing_lem :
    (id : ℕ) (spec : VirtualMachineSpec) (rows : List VmRow)
    → find_vm id rows ≡ none
    → set_spec id spec rows ≡ rows
missing_lem id spec [] h = refl
missing_lem id spec (row ∷ rows) h = go (row.id == id) h (missing_lem id spec rows)
  where
    go :
        (b : Bool)
        → (let rest = find_vm id rows in if b then some row else rest) ≡ none
        → (find_vm id rows ≡ none → set_spec id spec rows ≡ rows)
        → (if b then record row { spec = spec } else row) ∷ set_spec id spec rows ≡ row ∷ rows
    go true k f = absurd cc
    go false k f = ap (λ r. row ∷ r) (f k)

found_lem :
    (id : ℕ) (spec : VirtualMachineSpec) (rows : List VmRow) (now : VmRow)
    → find_vm id rows ≡ some now
    → find_vm id (set_spec id spec rows) ≡ some (record now { spec = spec })
found_lem id spec [] now h = absurd cc
found_lem id spec (row ∷ rows) now h = go (row.id == id) refl h (found_lem id spec rows now)
  where
    put : VmRow → Option VmRow
    put r = some (record r { spec = spec })

    go :
        (b : Bool)
        → (row.id == id) ≡ b
        → (let rest = find_vm id rows in if b then some row else rest) ≡ some now
        → (find_vm id rows ≡ some now
            → find_vm id (set_spec id spec rows) ≡ some (record now { spec = spec }))
        → find_vm id ((if b then record row { spec = spec } else row) ∷ set_spec id spec rows)
          ≡ some (record now { spec = spec })
    go true a k f = let same : row ≡ now = cc in rw a (ap put same)
    go false a k f = rw a (f k)

-- An edit back to the spec that write_spec read first is admitted, whatever other transactions have
-- done to the rows and the quota since, and whatever the project uses by then. A row that is still
-- there gets that spec, and one that is gone is answered with none and nothing is written.
pub stale_edit_admitted :
    (existing : VmRow) (id : ℕ) (db : Database)
    → ((now : VmRow) × (find_vm id db.virtual_machines ≡ some now)
        × (write_spec_after existing id existing.spec db ≡ (
          ok (some (record now { spec = existing.spec })),
          record db { virtual_machines = set_spec id existing.spec db.virtual_machines },
        )))
      ⊎ ((find_vm id db.virtual_machines ≡ none)
          × (write_spec_after existing id existing.spec db ≡ (ok none, db)))
unfolding write_spec_after
stale_edit_admitted existing id db =
    let admitted = nonpositive_admitted existing.project db _ (delta_self (of_vm existing.spec)) in
    elim (Option-cases (find_vm id db.virtual_machines)) [
      | inl gone ↦
          inr
            (gone, rw (admitted, missing_lem id existing.spec db.virtual_machines gone, gone) refl)
      | inr (now, there) ↦
          inl (
            now,
            there,
            rw (admitted, found_lem id existing.spec db.virtual_machines now there) refl,
          )
    ]
