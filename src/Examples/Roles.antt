-- ===== src/Examples/Roles.antt =====
-- The roles of a fresh database, and requests that would change them.
use vquasar.Access.Synced.{IsSynced, sync_role-IsSynced}
use vquasar.Base.{List, [], ◌∷◌, ◌≡◌, refl, true, false, some, any, all, str_eq, map}
use vquasar.Base.Result.{ok}
use vquasar.Access.{AuthUser}
use vquasar.Access.Roles.{
  RoleTables, RoleRequest, create_role, update_role, delete_role, get_role, role_permissions,
  serve_roles, is_valid,
}
use vquasar.Access.Seeding.{builtin_roles, sync_builtin_roles, BuiltinRole, sync_role}
use vquasar.Access.BuiltinRoles.{builtin_kept}

all_valid : all (λ b. all is_valid b.permissions) builtin_roles ≡ true
unfolding builtin_roles is_valid
all_valid = refl

viewer_permissions :
    map (λ b. any (str_eq "vm:console") b.permissions) builtin_roles ≡ (true ∷ true ∷ false ∷ [])
unfolding builtin_roles
viewer_permissions = refl

abbrev tables : RoleTables
tables = record {
  roles = record { id = 1; name = "viewer"; builtin = true } ∷ [];
  permissions = record { role_id = 1; permission = "vm:read" } ∷ [];
}

seeded :
    sync_builtin_roles
      ((1, record { name = "viewer"; permissions = "vm:read" ∷ [] }) ∷ [])
      (record { roles = []; permissions = [] })
    ≡ (ok tt, tables)
unfolding sync_builtin_roles
seeded = refl

abbrev manager : AuthUser
manager = record { user = some 5; permissions = "iam:manage" ∷ []; groups = []; superuser = false }

abbrev requests : List (AuthUser × RoleRequest)
requests =
    (manager, update_role 1 ("iam:manage" ∷ []))
    ∷ (manager, create_role 2 "helper" ("vm:read" ∷ []))
    ∷ (manager, delete_role 1)
    ∷ []

created : serve_roles requests tables ≡ record {
  roles = record { id = 2; name = "helper"; builtin = false } ∷ tables.roles;
  permissions = record { role_id = 2; permission = "vm:read" } ∷ tables.permissions;
}
unfolding serve_roles
created = refl

builtin_kept_example :
    (get_role 1 (serve_roles requests tables).roles
      ≡ some (record { id = 1; name = "viewer"; builtin = true }))
    × (role_permissions 1 (serve_roles requests tables).permissions ≡ "vm:read" ∷ [])
builtin_kept_example =
    builtin_kept 1 (record { id = 1; name = "viewer"; builtin = true }) requests tables refl refl

-- A custom role takes the name of a built-in one before start-up.
abbrev before : RoleTables
before = record {
  roles = record { id = 2; name = "operator"; builtin = false } ∷ [];
  permissions = record { role_id = 2; permission = "iam:manage" } ∷ [];
}

abbrev after : RoleTables
after = record {
  roles = record { id = 2; name = "operator"; builtin = true } ∷ [];
  permissions = record { role_id = 2; permission = "vm:power" } ∷ [];
}

abbrev operator : BuiltinRole
operator = record { name = "operator"; permissions = "vm:power" ∷ [] }

synced : sync_role 7 operator before ≡ ok after
unfolding sync_role
synced = refl

sync_role-IsSynced_example : IsSynced operator after
sync_role-IsSynced_example = sync_role-IsSynced 7 operator before after synced
