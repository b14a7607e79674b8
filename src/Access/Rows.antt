-- ===== src/Access/Rows.antt =====
-- The rows of one role beside changes of another's.
use vquasar.Base.{
  ℕ, List, Bool, String, true, false, some, [], ◌∷◌, ◌≡◌, ◌≢◌, refl, ◌∙◌, keep, any, not, ◌==◌,
  ◌||◌, ◌&&◌, str_eq, arith, if◌then◌else◌,
}
use vquasar.Base.Result.{Result, ok, err}
use vquasar.Access.{Permission}
use vquasar.Access.Roles.{
  RoleRow, RoleTables, RoleError, database, get_role, drop_permissions, insert_permissions,
}

abbrev pub of_role : ℕ → List Permission → List Permission
of_role id rows = keep (λ q. q.role_id == id) rows

pub keep_other :
    (id other : ℕ) (rows : List Permission)
    → other ≢ id
    → of_role id (drop_permissions other rows) ≡ of_role id rows
keep_other id other [] d = refl
keep_other id other (q ∷ rows) d = ground (arith, keep_other id other rows d)

cons_other :
    (id : ℕ) (q : Permission) (rows : List Permission)
    → q.role_id ≢ id
    → of_role id (q ∷ rows) ≡ of_role id rows
cons_other id q rows d = ground arith

pub insert_other :
    (id other : ℕ) (ps : List String) (rows rows' : List Permission)
    → other ≢ id
    → insert_permissions other ps rows ≡ ok rows'
    → of_role id rows' ≡ of_role id rows
unfolding insert_permissions
insert_other id other [] rows rows' d e = cc
insert_other id other (p ∷ ps) rows rows' d e =
    go (any (λ q. (q.role_id == other) && str_eq q.permission p) rows)
      (insert_other id other ps (row ∷ rows) rows' d) e
  where
    row : Permission
    row = record { role_id = other; permission = p }

    go :
        (dup : Bool)
        → (insert_permissions other ps (row ∷ rows) ≡ ok rows'
            → of_role id rows' ≡ of_role id (row ∷ rows))
        → (let added = insert_permissions other ps (row ∷ rows) in
            if dup then err database else added)
          ≡ ok rows'
        → of_role id rows' ≡ of_role id rows
    go true f k = absurd cc
    go false f k = f k ∙ cons_other id row rows d

pub get_role-remove :
    (id other : ℕ) (rs : List RoleRow)
    → other ≢ id
    → get_role id (keep (λ r. not (r.id == other)) rs) ≡ get_role id rs
get_role-remove id other [] d = refl
get_role-remove id other (r ∷ rs) d = ground (arith, get_role-remove id other rs d)

pub get_role-cons :
    (id : ℕ) (r : RoleRow) (rs : List RoleRow) → r.id ≢ id → get_role id (r ∷ rs) ≡ get_role id rs
get_role-cons id r rs d = ground arith

pub some-inj : (r s : RoleRow) → some r ≡ some s → r ≡ s
some-inj r s e = cc

pub true-false : true ≢ false
true-false e = cc

pub err-ok : {e : RoleError} {t : RoleTables} → Result.err e ≢ Result.ok t
err-ok h = cc

-- A role that is inserted has another identifier than the roles before it.
pub unused_id :
    (id : ℕ) (name : String) (rs : List RoleRow) (r : RoleRow) (other : ℕ)
    → get_role other rs ≡ some r
    → any (λ s. (s.id == id) || str_eq s.name name) rs ≡ false
    → id ≢ other
unused_id id name [] r other g e = λ same. cc
unused_id id name (s ∷ rs) r other g e = λ same. ground (arith, unused_id id name rs r other)
