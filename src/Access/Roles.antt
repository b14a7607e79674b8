-- ===== src/Access/Roles.antt =====
-- services/control/src/rbac.rs, the handlers of roles in services/control/src/api/iam.rs, and their
-- transactions in services/control/src/store.rs.
use vquasar.Base.Result.{Result, err, ok, refuse_if, ◌>>◌, ◌>>=◌}
use vquasar.Base.{
  List, Option, String, ℕ, Bool, false, if◌then◌else◌, keep, none, some, ◌∷◌, [], any, map, not,
  str_eq, ◌==◌, ◌&&◌, ◌||◌,
}
use vquasar.Access.{ApiError, require, AuthUser, Permission}

pub data RoleError : Type 0 where
  refused : ApiError → RoleError
  name_required role_not_found not_editable not_deletable database : RoleError
  unknown_permission : String → RoleError

-- `rbac.rs`.
abbrev pub catalog : List String
catalog =
    "vm:create" ∷ "vm:read" ∷ "vm:update" ∷ "vm:delete" ∷ "vm:power" ∷ "vm:migrate" ∷ "vm:console"
    ∷ "host:read" ∷ "host:manage" ∷ "network:create" ∷ "network:create:provider" ∷ "network:read"
    ∷ "network:update" ∷ "network:delete" ∷ "storagepool:read" ∷ "storagepool:manage"
    ∷ "volume:create" ∷ "volume:read" ∷ "volume:update" ∷ "volume:delete" ∷ "image:create"
    ∷ "image:read" ∷ "image:update" ∷ "image:delete" ∷ "template:create" ∷ "template:read"
    ∷ "template:update" ∷ "template:delete" ∷ "iam:read" ∷ "iam:manage" ∷ "project:read"
    ∷ "project:create" ∷ "project:update" ∷ "project:delete" ∷ []

unfoldable pub is_valid : String → Bool
is_valid permission = any (λ p. str_eq p permission) catalog

-- A row of `roles`, whose descriptions and times are left out.
pub record RoleRow : Type 0 where
  pub id : ℕ
  pub name : String
  pub builtin : Bool

pub record RoleTables : Type 0 where
  pub roles : List RoleRow
  pub permissions : List Permission

abbrev pub get_role : ℕ → List RoleRow → Option RoleRow
get_role id [] = none
get_role id (r ∷ rs) = let rest = get_role id rs in if r.id == id then some r else rest

-- The query sorts them; here they are in the order of the table.
abbrev pub role_permissions : ℕ → List Permission → List String
role_permissions id rows = map (λ q. q.permission) (keep (λ q. q.role_id == id) rows)

-- The inserts of one transaction: the primary key is the role with the permission.
unfoldable pub insert_permissions :
    ℕ → List String → List Permission → Result RoleError (List Permission)
insert_permissions id [] rows = ok rows
insert_permissions id (p ∷ ps) rows =
    let added = insert_permissions id ps (record { role_id = id; permission = p } ∷ rows) in
    if any (λ q. (q.role_id == id) && str_eq q.permission p) rows then err database else added

-- The identifier is the primary key, and a name is unique.
unfoldable pub insert_role : RoleRow → List RoleRow → Result RoleError (List RoleRow)
insert_role r roles =
    if any (λ s. (s.id == r.id) || str_eq s.name r.name) roles then err database else ok (r ∷ roles)

unfoldable pub store_create_role :
    ℕ → String → List String → RoleTables → Result RoleError RoleTables
unfolding insert_role insert_permissions
store_create_role id name permissions t =
    insert_role (record { id = id; name = name; builtin = false }) t.roles >>= λ roles.
    insert_permissions id permissions t.permissions >>= λ rows.
    ok (record { roles = roles; permissions = rows })

abbrev pub drop_permissions : ℕ → List Permission → List Permission
drop_permissions id rows = keep (λ q. not (q.role_id == id)) rows

unfoldable pub update_role_permissions : ℕ → List String → RoleTables → Result RoleError RoleTables
unfolding insert_permissions
update_role_permissions id permissions t =
    insert_permissions id permissions (drop_permissions id t.permissions) >>= λ rows.
    ok (record t { permissions = rows })

-- The deletion takes the permissions of the role along.
unfoldable pub remove_role : ℕ → RoleTables → RoleTables
remove_role id t = record {
  roles = keep (λ r. not (r.id == id)) t.roles;
  permissions = drop_permissions id t.permissions;
}

unfoldable pub validate_perms : List String → Result RoleError (Unit {0})
unfolding is_valid
validate_perms [] = ok tt
validate_perms (p ∷ ps) =
    let rest = validate_perms ps in if is_valid p then rest else err (unknown_permission p)

-- The identifier of a new role is drawn by the caller.
pub data RoleRequest : Type 0 where
  create_role : ℕ → String → List String → RoleRequest
  update_role : ℕ → List String → RoleRequest
  delete_role : ℕ → RoleRequest

abbrev pub lift_api : {A : Type 0} → Result ApiError A → Result RoleError A
lift_api (ok a) = ok a
lift_api (err e) = err (refused e)

abbrev pub is_empty_text : String → Bool
is_empty_text s = str_eq s ""

abbrev pub update_found :
    Option RoleRow → ℕ → List String → RoleTables → Result RoleError RoleTables
update_found none id permissions t = err role_not_found
update_found (some r) id permissions t =
    refuse_if r.builtin not_editable
    >> (validate_perms permissions >> update_role_permissions id permissions t)

-- The identifier is the primary key, so `DELETE ... WHERE id=$1 AND builtin=false` takes one row at most.
abbrev pub delete_found : Option RoleRow → ℕ → RoleTables → Result RoleError RoleTables
delete_found none id t = err not_deletable
delete_found (some r) id t = if r.builtin then err not_deletable else ok (remove_role id t)

unfoldable pub handle_permitted : RoleRequest → RoleTables → Result RoleError RoleTables
unfolding store_create_role update_role_permissions remove_role validate_perms
handle_permitted (create_role id name permissions) t =
    refuse_if (is_empty_text name) name_required
    >> (validate_perms permissions >> store_create_role id name permissions t)
handle_permitted (update_role id permissions) t =
    update_found (get_role id t.roles) id permissions t
handle_permitted (delete_role id) t = delete_found (get_role id t.roles) id t

unfoldable pub handle_role : AuthUser → RoleRequest → RoleTables → Result RoleError RoleTables
unfolding require handle_permitted
handle_role u r t = lift_api (require u "iam:manage") >> handle_permitted r t

abbrev pub committed : Result RoleError RoleTables → RoleTables → RoleTables
committed (ok t') t = t'
committed (err e) t = t

-- A request that fails leaves the tables: its transaction is rolled back.
unfoldable pub serve_roles : List (AuthUser × RoleRequest) → RoleTables → RoleTables
unfolding handle_role
serve_roles [] t = t
serve_roles ((u, r) ∷ rest) t = serve_roles rest (committed (handle_role u r t) t)
