-- ===== src/Examples/Tenants.antt =====
-- A tenant of the project 4 who asks for another project, and for every project.
use vquasar.Base.{
  String, true, false, Option, none, some, List, [], ◌∷◌, ◌≡◌, ◌↔◌, ◌⊎◌, refl, All, inr, ◌≢◌,
}
use vquasar.Base.Result.{ok}
use vquasar.Access.{
  Tables, Claims, Outer, AuthState, Request, VmRow, platform, resolve_scope, requested, handle_list,
  scope_named, project,
}
use vquasar.Access.Tenancy.{IsTenant, resolve_scope-platform, tenant_isolated}

abbrev tables : Tables
tables = record {
  projects = record { id = 1; name = "default" } ∷ record { id = 4; name = "blue" } ∷ [];
  roles = record { id = 2; name = "operator" } ∷ [];
  permissions = record { role_id = 2; permission = "vm:read" } ∷ [];
  user_roles = record { user_id = 9; role_id = 2; project_id = some 4 } ∷ [];
  group_roles = [];
}

abbrev claims : Claims
claims = record { subject = "s"; username = "ann"; email = none; groups = [] }

abbrev outer : Outer
outer = record {
  validate = λ token. some claims;
  parse_uuid = λ text. none;
  user_of = λ subject. 9;
}

abbrev auth : AuthState
auth = record { authenticator = true; bootstrap_admin = none; tenancy_enabled = true }

abbrev asking : Option String → Request
asking query = record { project_header = none; query = query; bearer = some "token" }

abbrev rows : List VmRow
rows =
    record { id = 20; project_id = some 4 }
    ∷ record { id = 21; project_id = some 1 }
    ∷ record { id = 22; project_id = none }
    ∷ []

tenant : IsTenant 4 9 [] tables
tenant = record { own = ((λ e. refl), tt); of_groups = tt }

abbrev blue : Request
blue = asking (some "a=1&project=blue")

listed : handle_list auth outer tables blue rows ≡ ok (record { id = 20; project_id = some 4 } ∷ [])
unfolding handle_list
listed = refl

tenant_isolated_example :
    All (λ (v : VmRow). v.project_id ≡ some 4) (record { id = 20; project_id = some 4 } ∷ [])
tenant_isolated_example =
    tenant_isolated auth outer tables blue "token" claims 4 rows
      (record { id = 20; project_id = some 4 } ∷ []) refl refl refl refl tenant listed

abbrev everywhere : Request
everywhere = asking (some "project=*")

resolve_scope-platform_example :
    ((resolve_scope auth outer tables everywhere ≡ ok platform)
      ↔ ((true ≡ false) ⊎ (requested everywhere ≡ some "*")))
    × ((true ≡ false)
        ⊎ ((requested everywhere ≢ none)
            ⊎ (resolve_scope auth outer tables everywhere ≡ ok (project 1))))
resolve_scope-platform_example = resolve_scope-platform auth outer tables everywhere

star : requested everywhere ≡ some "*"
unfolding requested
star = refl

everywhere_is_platform : resolve_scope auth outer tables everywhere ≡ ok platform
everywhere_is_platform =
    let (scoped, _) = resolve_scope-platform auth outer tables everywhere in scoped.1 (inr star)

unnamed_in_default : resolve_scope auth outer tables (asking none) ≡ ok (project 1)
unfolding resolve_scope scope_named requested
unnamed_in_default = refl
