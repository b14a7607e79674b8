-- ===== src/Access/BuiltinRoles.antt =====
-- What the requests on roles leave as it is.
use vquasar.Access.Rows.{
  err-ok, get_role-remove, insert_other, of_role, some-inj, unused_id, get_role-cons, keep_other,
  true-false,
}
use vquasar.Base.{
  ℕ, List, Bool, String, true, false, some, none, [], ◌∷◌, ◌≡◌, ◌≢◌, refl, sym, ap, ◌∙◌, any, ◌==◌,
  ◌||◌, str_eq, Bool-cases, inl, inr, if◌then◌else◌, subst, Option, map,
}
use vquasar.Base.Result.{Result, ok, err, ◌>>◌, ◌>>=◌, refuse_if}
use vquasar.Access.{Permission, AuthUser, Option, map, require}
use vquasar.Access.Roles.{
  RoleRow, RoleTables, RoleError, database, get_role, role_permissions, drop_permissions,
  insert_permissions, handle_permitted, remove_role, store_create_role, update_role_permissions,
  RoleRequest, insert_role, create_role, update_role, delete_role, handle_role, serve_roles,
  validate_perms, name_required, committed, delete_found, update_found, lift_api, not_deletable,
  not_editable,
}

module _ (id : ℕ) (r : RoleRow) (t : RoleTables) (found : get_role id t.roles ≡ some r)
    (builtin : r.builtin ≡ true) where
  -- The row of the role and its permissions are those of `t`.
  abbrev Kept : RoleTables → Type 0
  Kept t' = (get_role id t'.roles ≡ some r) × (of_role id t'.permissions ≡ of_role id t.permissions)

  create_keeps :
      (other : ℕ) (name : String) (ps : List String) (t' : RoleTables)
      → store_create_role other name ps t ≡ ok t'
      → Kept t'
  unfolding store_create_role insert_role
  create_keeps other name ps t' e =
      go (any (λ s. (s.id == other) || str_eq s.name name) t.roles) refl
        (insert_permissions other ps t.permissions) refl e
    where
      row : RoleRow
      row = record { id = other; name = name; builtin = false }

      go :
          (dup : Bool)
          → any (λ s. (s.id == other) || str_eq s.name name) t.roles ≡ dup
          → (rows : Result RoleError (List Permission))
          → insert_permissions other ps t.permissions ≡ rows
          → ((if dup then err database else ok (row ∷ t.roles)) >>= λ roles.
              rows >>= λ rows. ok (record { roles = roles; permissions = rows }))
            ≡ ok t'
          → Kept t'
      go true a rows b k = absurd cc
      go false a (err x) b k = absurd cc
      go false a (ok rows) b k =
          let d = unused_id other name t.roles r id found a in
          let same : record { roles = row ∷ t.roles; permissions = rows } ≡ t' = cc in
          subst Kept same (
            get_role-cons id row t.roles d ∙ found,
            insert_other id other ps t.permissions rows d b,
          )

  update_keeps :
      (other : ℕ) (ps : List String) (t' : RoleTables)
      → other ≢ id
      → update_role_permissions other ps t ≡ ok t'
      → Kept t'
  unfolding update_role_permissions
  update_keeps other ps t' d e =
      go (insert_permissions other ps (drop_permissions other t.permissions)) refl e
    where
      go :
          (rows : Result RoleError (List Permission))
          → insert_permissions other ps (drop_permissions other t.permissions) ≡ rows
          → (rows >>= λ rows. ok (record t { permissions = rows })) ≡ ok t'
          → Kept t'
      go (err x) b k = absurd cc
      go (ok rows) b k =
          let same : record t { permissions = rows } ≡ t' = cc in
          subst Kept same
            (found, insert_other id other ps _ rows d b ∙ keep_other id other t.permissions d)

  remove_keeps : (other : ℕ) → other ≢ id → Kept (remove_role other t)
  unfolding remove_role
  remove_keeps other d =
      (get_role-remove id other t.roles d ∙ found, keep_other id other t.permissions d)

  -- A role that may be changed is another one.
  differs :
      (other : ℕ) (s : RoleRow) → get_role other t.roles ≡ some s → s.builtin ≡ false → other ≢ id
  differs other s e b same =
      let one : r ≡ s = some-inj r s (sym found ∙ (ap (λ i. get_role i t.roles) (sym same) ∙ e)) in
      true-false (sym builtin ∙ (ap (λ x. x.builtin) one ∙ b))

  checked_keeps :
      (perms : Result RoleError (Unit {0})) (name_ok : Bool) (done : Result RoleError RoleTables)
      (e : RoleError) (t' : RoleTables)
      → (done ≡ ok t' → Kept t')
      → (refuse_if name_ok e >> (perms >> done)) ≡ ok t'
      → Kept t'
  checked_keeps perms true done e t' f k = absurd cc
  checked_keeps (err x) false done e t' f k = absurd cc
  checked_keeps (ok x) false done e t' f k = f k

  update_found_keeps :
      (other : ℕ) (ps : List String) (s : Option RoleRow) (t' : RoleTables)
      → get_role other t.roles ≡ s
      → update_found s other ps t ≡ ok t'
      → Kept t'
  update_found_keeps other ps none t' g e = absurd cc
  update_found_keeps other ps (some s) t' g e = elim (Bool-cases s.builtin) [
    | inl b ↦ absurd (err-ok (sym (ap (λ x. refuse_if x not_editable >> done) b) ∙ e))
    | inr b ↦
        checked_keeps (validate_perms ps) s.builtin (update_role_permissions other ps t)
          not_editable t' (update_keeps other ps t' (differs other s g b)) e
  ]
    where
      done : Result RoleError RoleTables
      done = validate_perms ps >> update_role_permissions other ps t

  delete_found_keeps :
      (other : ℕ) (s : Option RoleRow) (t' : RoleTables)
      → get_role other t.roles ≡ s
      → delete_found s other t ≡ ok t'
      → Kept t'
  delete_found_keeps other none t' g e = absurd cc
  delete_found_keeps other (some s) t' g e = go s.builtin refl e
    where
      go :
          (b : Bool)
          → s.builtin ≡ b
          → (if b then err not_deletable else ok (remove_role other t)) ≡ ok t'
          → Kept t'
      go true a k = absurd cc
      go false a k =
          let same : remove_role other t ≡ t' = cc in
          subst Kept same (remove_keeps other (differs other s g a))

  permitted_keeps : (q : RoleRequest) (t' : RoleTables) → handle_permitted q t ≡ ok t' → Kept t'
  unfolding handle_permitted
  permitted_keeps (create_role other name ps) t' e =
      checked_keeps (validate_perms ps) _ (store_create_role other name ps t) name_required t'
        (create_keeps other name ps t') e
  permitted_keeps (update_role other ps) t' e =
      update_found_keeps other ps (get_role other t.roles) t' refl e
  permitted_keeps (delete_role other) t' e =
      delete_found_keeps other (get_role other t.roles) t' refl e

  committed_keeps : (u : AuthUser) (q : RoleRequest) → Kept (committed (handle_role u q t) t)
  unfolding handle_role
  committed_keeps u q = go (lift_api (require u "iam:manage")) (handle_permitted q t) refl
    where
      go :
          (allowed : Result RoleError (Unit {0})) (res : Result RoleError RoleTables)
          → handle_permitted q t ≡ res
          → Kept (committed (allowed >> res) t)
      go (err e) res a = (found, refl)
      go (ok x) (err e) a = (found, refl)
      go (ok x) (ok t') a = permitted_keeps q t' a

serve_keeps :
    (id : ℕ) (r : RoleRow) (qs : List (AuthUser × RoleRequest)) (t : RoleTables)
    (found : get_role id t.roles ≡ some r) (builtin : r.builtin ≡ true)
    → Kept id r t found builtin (serve_roles qs t)
unfolding serve_roles
serve_keeps id r [] t found builtin = (found, refl)
serve_keeps id r ((u, q) ∷ qs) t found builtin =
    let (row, same) = committed_keeps id r t found builtin u q in
    let (row', same') = serve_keeps id r qs (committed (handle_role u q t) t) row builtin in
    (row', same' ∙ same)

-- Whoever asks for whatever on roles, a role that is built in stays as it is, with its permissions.
pub builtin_kept :
    (id : ℕ) (r : RoleRow) (qs : List (AuthUser × RoleRequest)) (t : RoleTables)
    → get_role id t.roles ≡ some r
    → r.builtin ≡ true
    → (get_role id (serve_roles qs t).roles ≡ some r)
      × (role_permissions id (serve_roles qs t).permissions ≡ role_permissions id t.permissions)
builtin_kept id r qs t found builtin =
    let (row, same) = serve_keeps id r qs t found builtin in
    (row, ap (λ rows. map (λ q. q.permission) rows) same)
