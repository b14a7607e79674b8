-- ===== src/Access/Seeding.antt =====
-- `builtin_roles` of services/control/src/rbac.rs, and `sync_builtin_roles` of
-- services/control/src/store.rs, which start-up runs.
use vquasar.Base.Result.{Result, ok, ◌>>=◌, err}
use vquasar.Base.{
  List, String, Bool, ℕ, Option, if◌then◌else◌, not, str_eq, true, ◌∷◌, false, keep, none, ◌&&◌,
  ◌||◌, [], any, some, ◌==◌, map,
}
use vquasar.Access.Roles.{
  insert_permissions, insert_role, RoleRow, catalog, RoleTables, RoleError, drop_permissions,
}
use Prim.Native.Char.{code}

unfoldable pub starts_with : String → String → Bool
starts_with String.[] s = true
starts_with (String.◌∷◌ c cs) String.[] = false
starts_with (String.◌∷◌ c cs) (String.◌∷◌ d ds) = (code c == code d) && starts_with cs ds

unfoldable pub ends_with : String → String → Bool
ends_with suffix String.[] = str_eq suffix ""
ends_with suffix (String.◌∷◌ c cs) = str_eq suffix (String.◌∷◌ c cs) || ends_with suffix cs

pub record BuiltinRole : Type 0 where
  pub name : String
  pub permissions : List String

abbrev pub operator_has : String → Bool
operator_has p =
    not (starts_with "iam:" p)
    && (not (str_eq p "host:manage")
        && (not (str_eq p "storagepool:manage")
            && (not (str_eq p "network:create:provider")
                && not (
                    any (str_eq p) ("project:create" ∷ "project:update" ∷ "project:delete" ∷ [])))))

unfoldable pub builtin_roles : List BuiltinRole
unfolding starts_with ends_with
builtin_roles =
    record { name = "admin"; permissions = catalog }
    ∷ record { name = "operator"; permissions = keep operator_has catalog }
    ∷ record {
      name = "viewer";
      permissions = keep (λ p. not (str_eq p "iam:read")) (keep (ends_with ":read") catalog);
    }
    ∷ []

abbrev pub role_named : String → List RoleRow → Option RoleRow
role_named name [] = none
role_named name (r ∷ rs) =
    let rest = role_named name rs in if str_eq r.name name then some r else rest

abbrev pub mark_builtin : String → RoleRow → RoleRow
mark_builtin name r = if str_eq r.name name then record r { builtin = true } else r

abbrev pub with_id : ℕ → List RoleRow → Result RoleError (ℕ × List RoleRow)
with_id id roles = ok (id, roles)

abbrev pub upsert_found :
    Option RoleRow → ℕ → String → List RoleRow → Result RoleError (ℕ × List RoleRow)
upsert_found (some r) id name roles = ok (r.id, map (mark_builtin name) roles)
upsert_found none id name roles =
    insert_role (record { id = id; name = name; builtin = true }) roles >>= with_id id

-- `INSERT ... ON CONFLICT (name) DO UPDATE ... RETURNING id`, with `id` for a new row.
unfoldable pub upsert_builtin : ℕ → String → List RoleRow → Result RoleError (ℕ × List RoleRow)
unfolding insert_role
upsert_builtin id name roles = upsert_found (role_named name roles) id name roles

abbrev pub sync_permissions :
    BuiltinRole → RoleTables → (ℕ × List RoleRow) → Result RoleError RoleTables
sync_permissions b t (row, roles) =
    insert_permissions row b.permissions (drop_permissions row t.permissions) >>= λ rows.
    ok (record { roles = roles; permissions = rows })

unfoldable pub sync_role : ℕ → BuiltinRole → RoleTables → Result RoleError RoleTables
unfolding upsert_builtin insert_permissions
sync_role id b t = upsert_builtin id b.name t.roles >>= sync_permissions b t

-- One transaction for each role, each with a fresh identifier; the first that fails ends the start-up.
unfoldable pub sync_builtin_roles :
    List (ℕ × BuiltinRole) → RoleTables → Result RoleError (Unit {0}) × RoleTables
unfolding sync_role
sync_builtin_roles [] t = (ok tt, t)
sync_builtin_roles ((id, b) ∷ rest) t = elim (sync_role id b t) [
  | err e ↦ (err e, t)
  | ok t' ↦ sync_builtin_roles rest t'
]
