-- ===== src/Access.antt =====
-- services/control/src/authz.rs with the queries that it makes of services/control/src/store.rs, the roles
-- of rbac.rs beside it, and crates/model/src/project.rs: who may do what, and in which project.

pub mod BuiltinRoles
pub mod Roles
pub mod Seeding
pub mod Rows
pub mod Synced
pub mod Tenancy
use Prim.Native.Char.{Char, code}
use Prim.Native.String.{String, [], ◌∷◌}
use vquasar.Base.{
  ℕ, Bool, true, false, Option, none, some, List, ◌++◌, ◌==◌, ◌&&◌, ◌||◌, str_eq, any, keep, map,
  if◌then◌else◌,
}
use vquasar.Base.Result.{Result, ok, err, ◌>>=◌}

pub data Scope : Type 0 where
  project : ℕ → Scope
  platform : Scope

unfoldable pub project_filter : Scope → Option ℕ
project_filter (project id) = some id
project_filter platform = none

abbrev pub default_project_id : ℕ
default_project_id = 1

pub record Project : Type 0 where
  pub id : ℕ
  pub name : String

-- Rows of `role_permissions`, `user_roles` and `group_roles`.
pub record Permission : Type 0 where
  pub role_id : ℕ
  pub permission : String

pub record UserRole : Type 0 where
  pub user_id : ℕ
  pub role_id : ℕ
  pub project_id : Option ℕ

pub record GroupRole : Type 0 where
  pub group : String
  pub role_id : ℕ
  pub project_id : Option ℕ

pub record Role : Type 0 where
  pub id : ℕ
  pub name : String

pub record Tables : Type 0 where
  pub projects : List Project
  pub roles : List Role
  pub permissions : List Permission
  pub user_roles : List UserRole
  pub group_roles : List GroupRole

pub record Claims : Type 0 where
  pub subject : String
  pub username : String
  pub email : Option String
  pub groups : List String

-- The token validation, and the parsing of a UUID, which are other crates'; `user_of` is the id of the
-- user's row for a subject.
pub record Outer : Type 0 where
  pub validate : String → Option Claims
  pub parse_uuid : String → Option ℕ
  pub user_of : String → ℕ

pub record AuthState : Type 0 where
  pub authenticator : Bool
  pub bootstrap_admin : Option String
  pub tenancy_enabled : Bool

-- The headers as text, where they are text, and the query of the URI.
pub record Request : Type 0 where
  pub project_header : Option String
  pub query : Option String
  pub bearer : Option String

pub data ApiError : Type 0 where
  missing_token token_rejected unknown_project : ApiError
  forbidden : String → ApiError

pub record AuthUser : Type 0 where
  pub user : Option ℕ
  pub permissions : List String
  pub groups : List String
  pub superuser : Bool

abbrev prepend : Char → List String → List String
prepend c List.[] = List.◌∷◌ (c ∷ []) List.[]
prepend c (List.◌∷◌ t ts) = List.◌∷◌ (c ∷ t) ts

-- `split('&')`.
unfoldable pub split_ampersand : String → List String
split_ampersand [] = List.◌∷◌ [] List.[]
split_ampersand (c ∷ s) =
    let rest = split_ampersand s in if code c == 38 then List.◌∷◌ [] rest else prepend c rest

abbrev in_key : Char → Option (String × String) → Option (String × String)
in_key c none = none
in_key c (some (k, v)) = some (c ∷ k, v)

-- `split_once('=')`.
unfoldable pub split_once : String → Option (String × String)
split_once [] = none
split_once (c ∷ s) = let rest = split_once s in if code c == 61 then some ([], s) else in_key c rest

abbrev project_value : Option (String × String) → Option String
project_value none = none
project_value (some (k, v)) = if str_eq k "project" then some v else none

unfoldable pub find_project : List String → Option String
find_project List.[] = none
find_project (List.◌∷◌ kv rest) =
    let later = find_project rest in
    elim (project_value (split_once kv)) [ none ↦ later | some v ↦ some v ]

abbrev from_query : Option String → Option String
from_query none = none
from_query (some q) = find_project (split_ampersand q)

unfoldable pub requested : Request → Option String
unfolding find_project split_ampersand split_once
requested r = elim r.project_header [ some v ↦ some v | none ↦ from_query r.query ]

abbrev first_project : (Project → Bool) → List Project → Option Project
first_project q List.[] = none
first_project q (List.◌∷◌ p ps) = let rest = first_project q ps in if q p then some p else rest

unfoldable pub named_project : Outer → Tables → String → Option Project
named_project o t name = elim (o.parse_uuid name) [
  | some id ↦ first_project (λ p. p.id == id) t.projects
  | none ↦ first_project (λ p. str_eq p.name name) t.projects
]

unfoldable pub scope_named : Outer → Tables → Option String → Result ApiError Scope
unfolding named_project
scope_named o t none = ok (project default_project_id)
scope_named o t (some name) =
    if str_eq name "*"
    then ok platform
    else elim (named_project o t name) [ none ↦ err unknown_project | some p ↦ ok (project p.id) ]

unfoldable pub resolve_scope : AuthState → Outer → Tables → Request → Result ApiError Scope
unfolding scope_named requested
resolve_scope auth o t r =
    if auth.tenancy_enabled then scope_named o t (requested r) else ok platform

-- `project_id IS NULL OR project_id = $3`, where a comparison with NULL is not true.
abbrev pub applies : Option ℕ → Option ℕ → Bool
applies none filter = true
applies (some p) none = false
applies (some p) (some q) = p == q

abbrev pub binds_user : ℕ → Option ℕ → ℕ → UserRole → Bool
binds_user user filter role b =
    (b.role_id == role) && ((b.user_id == user) && applies b.project_id filter)

abbrev pub binds_group : List String → Option ℕ → ℕ → GroupRole → Bool
binds_group groups filter role b =
    (b.role_id == role) && (any (λ g. str_eq g b.group) groups && applies b.project_id filter)

unfoldable pub effective_permissions : Tables → ℕ → List String → Option ℕ → List String
effective_permissions t user groups filter =
    map (λ p. p.permission)
      (keep
        (λ p.
          any (binds_user user filter p.role_id) t.user_roles
          || any (binds_group groups filter p.role_id) t.group_roles)
        t.permissions)

abbrev opt_is : Option String → String → Bool
opt_is none s = false
opt_is (some e) s = str_eq e s

abbrev is_bootstrap : Option String → Claims → Bool
is_bootstrap none c = false
is_bootstrap (some ba) c = str_eq ba c.subject || (str_eq ba c.username || opt_is c.email ba)

-- A row that is there already counts as one that is inserted again.
unfoldable pub grant_role_by_name : ℕ → String → Tables → Tables
grant_role_by_name user role t = record t {
  user_roles =
      map (λ r. record { user_id = user; role_id = r.id; project_id = none })
        (keep (λ r. str_eq r.name role) t.roles)
      ++ t.user_roles;
}

unfoldable pub bootstrap : AuthState → Outer → Claims → Tables → Tables
unfolding grant_role_by_name
bootstrap auth o c t =
    if is_bootstrap auth.bootstrap_admin c
    then grant_role_by_name (o.user_of c.subject) "admin" t
    else t

abbrev superuser : AuthUser
superuser = record { user = none; permissions = List.[]; groups = List.[]; superuser = true }

abbrev or_refuse : {A : Type 0} → Option A → ApiError → Result ApiError A
or_refuse none e = err e
or_refuse (some a) e = ok a

-- The caller of a request with a token that is valid.
unfoldable pub caller : AuthState → Outer → Tables → Request → Claims → Result ApiError AuthUser
unfolding resolve_scope effective_permissions bootstrap project_filter
caller auth o t r c =
    let t' = bootstrap auth o c t in
    resolve_scope auth o t' r >>= λ scope. ok (record {
      user = some (o.user_of c.subject);
      permissions = effective_permissions t' (o.user_of c.subject) c.groups (project_filter scope);
      groups = c.groups;
      superuser = false;
    })

abbrev with_token : AuthState → Outer → Tables → Request → Option String → Result ApiError AuthUser
with_token auth o t r none = err missing_token
with_token auth o t r (some token) =
    or_refuse (o.validate token) token_rejected >>= caller auth o t r

unfoldable pub auth_user : AuthState → Outer → Tables → Request → Result ApiError AuthUser
unfolding caller
auth_user auth o t r = if auth.authenticator then with_token auth o t r r.bearer else ok superuser

unfoldable pub require : AuthUser → String → Result ApiError (Unit {0})
require u permission =
    if u.superuser || any (λ p. str_eq p permission) u.permissions
    then ok tt
    else err (forbidden permission)

-- `services/control/src/scoped.rs`: a row of `virtual_machines`, and those that a scope sees.
pub record VmRow : Type 0 where
  pub id : ℕ
  pub project_id : Option ℕ

-- `$1 IS NULL OR project_id = $1`.
abbrev pub sees : Option ℕ → Option ℕ → Bool
sees none owner = true
sees (some p) none = false
sees (some p) (some q) = q == p

unfoldable pub list_vms : Scope → List VmRow → List VmRow
unfolding project_filter
list_vms scope rows = keep (λ v. sees (project_filter scope) v.project_id) rows

-- The handler of `GET /vms`, whose arguments are extracted first.
unfoldable pub handle_list :
    AuthState → Outer → Tables → Request → List VmRow → Result ApiError (List VmRow)
unfolding auth_user require resolve_scope list_vms
handle_list auth o t r rows = auth_user auth o t r >>= λ user.
    resolve_scope auth o t r >>= λ scope. require user "vm:read" >>= λ _. ok (list_vms scope rows)
