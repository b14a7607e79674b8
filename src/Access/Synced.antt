-- ===== src/Access/Synced.antt =====
-- What start-up leaves of a built-in role.
use vquasar.Base.{
  ℕ, List, Bool, String, true, false, some, none, [], ◌∷◌, ◌≡◌, refl, sym, ap, ◌∙◌, any, map, not,
  ◌==◌, ◌||◌, ◌&&◌, str_eq, if◌then◌else◌, Option, ==_iff, eq_refl,
}
use vquasar.Base.Result.{Result, ok, err, ◌>>=◌}
use vquasar.Access.{Permission}
use vquasar.Access.Roles.{
  RoleRow, RoleTables, RoleError, database, role_permissions, drop_permissions, insert_permissions,
  insert_role,
}
use vquasar.Access.Seeding.{
  role_named, mark_builtin, upsert_builtin, sync_role, BuiltinRole, sync_permissions, upsert_found,
  with_id,
}

dropped : (id : ℕ) (rows : List Permission) → role_permissions id (drop_permissions id rows) ≡ []
dropped id [] = refl
dropped id (q ∷ rows) = go (q.role_id == id) refl (dropped id rows)
  where
    go :
        (b : Bool)
        → (q.role_id == id) ≡ b
        → role_permissions id (drop_permissions id rows) ≡ []
        → role_permissions id
            (let rest = drop_permissions id rows in if not b then q ∷ rest else rest)
          ≡ []
    go true e h = h
    go false e h = rw e h

abbrev grants : String → List String → Bool
grants p ps = any (str_eq p) ps

cons_self :
    (id : ℕ) (x : String) (rows : List Permission)
    → role_permissions id (record { role_id = id; permission = x } ∷ rows)
      ≡ x ∷ role_permissions id rows
cons_self id x rows = let e = (==_iff id id).1 refl in rw e refl

or_swap : (a b c : Bool) → (b || (a || c)) ≡ ((a || b) || c)
or_swap true true c = refl
or_swap true false c = refl
or_swap false b c = refl

or_none : (b : Bool) → (b || false) ≡ b
or_none true = refl
or_none false = refl

-- The permissions of a role after the inserts are those before and the ones that are inserted.
insert_grants :
    (id : ℕ) (p : String) (ps : List String) (rows rows' : List Permission)
    → insert_permissions id ps rows ≡ ok rows'
    → grants p (role_permissions id rows') ≡ (grants p ps || grants p (role_permissions id rows))
unfolding insert_permissions
insert_grants id p [] rows rows' e =
    let same : rows ≡ rows' = cc in ap (λ r. grants p (role_permissions id r)) (sym same)
insert_grants id p (x ∷ ps) rows rows' e =
    go (any (λ q. (q.role_id == id) && str_eq q.permission x) rows)
      (insert_grants id p ps (row ∷ rows) rows') e
  where
    row : Permission
    row = record { role_id = id; permission = x }

    go :
        (dup : Bool)
        → (insert_permissions id ps (row ∷ rows) ≡ ok rows'
            → grants p (role_permissions id rows')
              ≡ (grants p ps || grants p (role_permissions id (row ∷ rows))))
        → (let added = insert_permissions id ps (row ∷ rows) in if dup then err database else added)
          ≡ ok rows'
        → grants p (role_permissions id rows')
          ≡ (grants p (x ∷ ps) || grants p (role_permissions id rows))
    go true f k = absurd cc
    go false f k =
        f k
        ∙ (ap (λ ms. grants p ps || grants p ms) (cons_self id x rows)
            ∙ or_swap (str_eq p x) (grants p ps) (grants p (role_permissions id rows)))

abbrev map_marked : Option RoleRow → Option RoleRow
map_marked none = none
map_marked (some r) = some (record r { builtin = true })

named_mark :
    (name : String) (rs : List RoleRow) (r : RoleRow)
    → role_named name rs ≡ some r
    → role_named name (map (mark_builtin name) rs) ≡ some (record r { builtin = true })
named_mark name [] r e = absurd cc
named_mark name (s ∷ rs) r e = go (str_eq s.name name) refl e (named_mark name rs r)
  where
    go :
        (b : Bool)
        → str_eq s.name name ≡ b
        → (let rest = role_named name rs in if b then some s else rest) ≡ some r
        → (role_named name rs ≡ some r
            → role_named name (map (mark_builtin name) rs) ≡ some (record r { builtin = true }))
        → role_named name
            ((if b then record s { builtin = true } else s) ∷ map (mark_builtin name) rs)
          ≡ some (record r { builtin = true })
    go true a k f = rw a (ap (λ o. map_marked o) k)
    go false a k f = rw a (f k)

-- The table of roles after an upsert has the role under its name, as a built-in one.
upserted :
    (id row : ℕ) (name : String) (roles roles' : List RoleRow)
    → upsert_builtin id name roles ≡ ok (row, roles')
    → (r : RoleRow) × (role_named name roles' ≡ some r) × (r.builtin ≡ true) × (r.id ≡ row)
unfolding upsert_builtin insert_role
upserted id row name roles roles' e = go (role_named name roles) refl e
  where
    fresh : RoleRow
    fresh = record { id = id; name = name; builtin = true }

    inserted :
        (dup : Bool)
        → ((if dup then err database else ok (fresh ∷ roles)) >>= with_id id) ≡ ok (row, roles')
        → (r : RoleRow) × (role_named name roles' ≡ some r) × (r.builtin ≡ true) × (r.id ≡ row)
    inserted true k = absurd cc
    inserted false k =
        let same_id : id ≡ row = cc in
        let same : fresh ∷ roles ≡ roles' = cc in
        let self : str_eq name name ≡ true = eq_refl name in
        let first : role_named name (fresh ∷ roles) ≡ some fresh = rw self refl in
        (fresh, ap (role_named name) (sym same) ∙ first, refl, same_id)

    go :
        (old : Option RoleRow)
        → role_named name roles ≡ old
        → upsert_found old id name roles ≡ ok (row, roles')
        → (r : RoleRow) × (role_named name roles' ≡ some r) × (r.builtin ≡ true) × (r.id ≡ row)
    go (some r) a k =
        let same_id : r.id ≡ row = cc in
        let same : map (mark_builtin name) roles ≡ roles' = cc in
        (
          record r { builtin = true },
          ap (role_named name) (sym same) ∙ named_mark name roles r a,
          refl,
          same_id,
        )
    go none a k = inserted (any (λ s. (s.id == id) || str_eq s.name name) roles) k

-- The tables have the role under its name, as a built-in one, with the permissions of its definition.
abbrev pub IsSynced : BuiltinRole → RoleTables → Type 0
IsSynced b t =
    (r : RoleRow) × (role_named b.name t.roles ≡ some r)
    × (r.builtin ≡ true)
    × ((p : String)
        → any (str_eq p) (role_permissions r.id t.permissions) ≡ any (str_eq p) b.permissions)

-- A start-up that has synchronised a role has it under its name as a built-in role, whatever the table
-- held before, and its permissions are those of its definition.
pub sync_role-IsSynced :
    (id : ℕ) (b : BuiltinRole) (t t' : RoleTables) → sync_role id b t ≡ ok t' → IsSynced b t'
unfolding sync_role
sync_role-IsSynced id b t t' e = go (upsert_builtin id b.name t.roles) refl e
  where
    done :
        (row : ℕ) (roles : List RoleRow)
        → upsert_builtin id b.name t.roles ≡ ok (row, roles)
        → (rows : Result RoleError (List Permission))
        → insert_permissions row b.permissions (drop_permissions row t.permissions) ≡ rows
        → (rows >>= λ rows. ok (record { roles = roles; permissions = rows })) ≡ ok t'
        → IsSynced b t'
    done row roles u (err x) i k = absurd cc
    done row roles u (ok rows) i k =
        let same_roles : roles ≡ t'.roles = cc in
        let same_rows : rows ≡ t'.permissions = cc in
        let (r, named, builtin, at) = upserted id row b.name t.roles roles u in
        (
          r,
          ap (role_named b.name) (sym same_roles) ∙ named,
          builtin,
          λ p.
              ap (λ i. any (str_eq p) (role_permissions i t'.permissions)) at
              ∙ (ap (λ ps. any (str_eq p) (role_permissions row ps)) (sym same_rows)
                  ∙ (insert_grants row p b.permissions (drop_permissions row t.permissions) rows i
                      ∙ (ap (λ ms. any (str_eq p) b.permissions || any (str_eq p) ms)
                            (dropped row t.permissions)
                          ∙ or_none (any (str_eq p) b.permissions)))),
        )

    go :
        (up : Result RoleError (ℕ × List RoleRow))
        → upsert_builtin id b.name t.roles ≡ up
        → (up >>= sync_permissions b t) ≡ ok t'
        → IsSynced b t'
    go (err x) u k = absurd cc
    go (ok (row, roles)) u k = done row roles u _ refl k
