-- ===== src/Access/Tenancy.antt =====
-- The scope of a request, and the rows of `GET /vms` that a caller with bindings in one project
-- sees.
use vquasar.Base.{
  ℕ, String, Bool, true, false, Option, none, some, List, [], ◌∷◌, ◌≡◌, ◌↔◌, ◌⊎◌, inl, inr, refl,
  sym, ◌∙◌, ap, All, any, keep, ◌==◌, ◌&&◌, ◌||◌, str_eq, any-map, any-keep, any-Memᴰ, All-Memᴰ,
  ==_iff, eq_iff, if◌then◌else◌, ◌≢◌, subst,
}
use vquasar.Base.Result.{Result, ok, err, ◌>>=◌}
use vquasar.Access.{
  Scope, project, platform, project_filter, Tables, Claims, Outer, AuthState, Request, ApiError,
  AuthUser, VmRow, requested, scope_named, named_project, resolve_scope, applies, binds_user,
  binds_group, effective_permissions, bootstrap, caller, auth_user, require, sees, list_vms,
  handle_list, Permission, Project, unknown_project, forbidden,
}

false-true : false ≢ true
false-true e = cc

some-inj : {a b : String} → some a ≡ some b → a ≡ b
some-inj e = cc

named_lem :
    (o : Outer) (t : Tables) (name : Option String)
    → (scope_named o t name ≡ ok platform) ↔ (name ≡ some "*")
unfolding scope_named
named_lem o t none = ((λ e. absurd cc), λ e. absurd cc)
named_lem o t (some name) = go (str_eq name "*") (named_project o t name) (eq_iff name "*")
  where
    go :
        (star : Bool) (found : Option Project)
        → (star ≡ true) ↔ (name ≡ "*")
        → ((if star
              then ok platform
              else elim found [ none ↦ err unknown_project | some p ↦ ok (project p.id) ])
            ≡ ok platform)
          ↔ (some name ≡ some "*")
    go true found h = ((λ e. ap some (h.0 refl)), λ e. refl)
    go false none h = ((λ e. absurd cc), λ e. absurd (false-true (h.1 (some-inj e))))
    go false (some p) h = ((λ e. absurd cc), λ e. absurd (false-true (h.1 (some-inj e))))

platform_lem :
    (auth : AuthState) (o : Outer) (t : Tables) (r : Request)
    → (resolve_scope auth o t r ≡ ok platform)
      ↔ ((auth.tenancy_enabled ≡ false) ⊎ (requested r ≡ some "*"))
unfolding resolve_scope scope_named
platform_lem auth o t r = go auth.tenancy_enabled (named_lem o t (requested r))
  where
    go :
        (on : Bool)
        → (scope_named o t (requested r) ≡ ok platform) ↔ (requested r ≡ some "*")
        → ((if on then scope_named o t (requested r) else ok platform) ≡ ok platform)
          ↔ ((on ≡ false) ⊎ (requested r ≡ some "*"))
    go false n = ((λ e. inl refl), λ e. refl)
    go true n = ((λ e. inr (n.0 e)), λ e. elim e [ inl off ↦ absurd cc | inr star ↦ n.1 star ])

default_lem :
    (auth : AuthState) (o : Outer) (t : Tables) (r : Request)
    → (auth.tenancy_enabled ≡ false)
      ⊎ ((requested r ≢ none) ⊎ (resolve_scope auth o t r ≡ ok (project 1)))
unfolding resolve_scope scope_named
default_lem auth o t r = go auth.tenancy_enabled (requested r)
  where
    go :
        (on : Bool) (name : Option String)
        → (on ≡ false)
          ⊎ ((name ≢ none) ⊎ ((if on then scope_named o t name else ok platform) ≡ ok (project 1)))
    go false name = inl refl
    go true (some n) = inr (inl λ e. cc)
    go true none = inr (inr refl)

-- A request is in the platform's scope exactly if tenancy is off or the request asks for it with
-- `*`. Unless tenancy is off, a request that names no project is in the default project, whose id is
-- 1.
pub resolve_scope-platform :
    (auth : AuthState) (o : Outer) (t : Tables) (r : Request)
    → ((resolve_scope auth o t r ≡ ok platform)
        ↔ ((auth.tenancy_enabled ≡ false) ⊎ (requested r ≡ some "*")))
      × ((auth.tenancy_enabled ≡ false)
          ⊎ ((requested r ≢ none) ⊎ (resolve_scope auth o t r ≡ ok (project 1))))
resolve_scope-platform auth o t r = (platform_lem auth o t r, default_lem auth o t r)

applies_lem :
    (p : ℕ) (scope : Scope) → applies (some p) (project_filter scope) ≡ true → scope ≡ project p
unfolding project_filter
applies_lem p platform e = absurd cc
applies_lem p (project q) e = ap project (sym ((==_iff p q).0 e))

and_true : (a b : Bool) → (a && b) ≡ true → (a ≡ true) × (b ≡ true)
and_true true b e = (refl, e)
and_true false b e = absurd cc

or_true : (a b : Bool) → (a || b) ≡ true → (a ≡ true) ⊎ (b ≡ true)
or_true true b e = inl refl
or_true false b e = inr e

-- Every binding of the caller, and of the caller's groups, is in the project `p`.
pub record IsTenant (p user : ℕ) (groups : List String) (t : Tables) : Type 0 where
  pub own : All (λ b. b.user_id ≡ user → b.project_id ≡ some p) t.user_roles
  pub of_groups :
      All (λ b. any (λ g. str_eq g b.group) groups ≡ true → b.project_id ≡ some p) t.group_roles

module _ (p : ℕ) (t : Tables) (user : ℕ) (groups : List String)
    (tenant : IsTenant p user groups t) where
  user_lem :
      (scope : Scope) (role : ℕ)
      → any (binds_user user (project_filter scope) role) t.user_roles ≡ true
      → scope ≡ project p
  user_lem scope role e =
      let (b, m, h) = any-Memᴰ (binds_user user (project_filter scope) role) t.user_roles e in
      let (_, rest) = and_true (b.role_id == role) _ h in
      let (mine, last) = and_true (b.user_id == user) _ rest in
      let within =
        All-Memᴰ (λ b. b.user_id ≡ user → b.project_id ≡ some p) b t.user_roles m tenant.own
          ((==_iff b.user_id user).0 mine) in
      applies_lem p scope (ap (λ x. applies x (project_filter scope)) (sym within) ∙ last)

  group_lem :
      (scope : Scope) (role : ℕ)
      → any (binds_group groups (project_filter scope) role) t.group_roles ≡ true
      → scope ≡ project p
  group_lem scope role e =
      let (b, m, h) = any-Memᴰ (binds_group groups (project_filter scope) role) t.group_roles e in
      let (_, rest) = and_true (b.role_id == role) _ h in
      let (member, last) = and_true (any (λ g. str_eq g b.group) groups) _ rest in
      let within =
        All-Memᴰ (λ b. any (λ g. str_eq g b.group) groups ≡ true → b.project_id ≡ some p) b
          t.group_roles m tenant.of_groups member in
      applies_lem p scope (ap (λ x. applies x (project_filter scope)) (sym within) ∙ last)

  abbrev granted : Scope → Permission → Bool
  granted scope q =
      any (binds_user user (project_filter scope) q.role_id) t.user_roles
      || any (binds_group groups (project_filter scope) q.role_id) t.group_roles

  -- A caller with a permission is in the project of the bindings.
  scope_lem :
      (scope : Scope) (permission : String)
      → any (λ q. str_eq q permission) (effective_permissions t user groups (project_filter scope))
        ≡ true
      → scope ≡ project p
  unfolding effective_permissions
  scope_lem scope permission e =
      let kept = keep (granted scope) t.permissions in
      let e' = sym (any-map (λ q. str_eq q permission) (λ q. q.permission) kept) ∙ e in
      let e'' =
        sym (any-keep (λ q. str_eq q.permission permission) (granted scope) t.permissions) ∙ e' in
      let (row, m, h) =
        any-Memᴰ (λ q. granted scope q && str_eq q.permission permission) t.permissions e'' in
      let (grants, _) = and_true (granted scope row) _ h in
      elim (or_true (any (binds_user user (project_filter scope) row.role_id) t.user_roles) _
        grants) [ inl u ↦ user_lem scope row.role_id u | inr g ↦ group_lem scope row.role_id g ]

-- What a project sees is its own.
list_vms-IsOwn :
    (p : ℕ) (rows : List VmRow) → All (λ v. v.project_id ≡ some p) (list_vms (project p) rows)
unfolding list_vms project_filter
list_vms-IsOwn p [] = tt
list_vms-IsOwn p (v ∷ rows) = go (sees (some p) v.project_id) refl (list_vms-IsOwn p rows)
  where
    own : (owner : Option ℕ) → sees (some p) owner ≡ true → owner ≡ some p
    own none e = absurd cc
    own (some q) e = ap some ((==_iff q p).0 e)

    go :
        (b : Bool)
        → sees (some p) v.project_id ≡ b
        → All (λ v. v.project_id ≡ some p) (keep (λ v. sees (some p) v.project_id) rows)
        → All
            (λ v. v.project_id ≡ some p)
            (let rest = keep (λ v. sees (some p) v.project_id) rows in if b then v ∷ rest else rest)
    go true e others = (own v.project_id e, others)
    go false e others = others

-- A caller whose bindings, and whose groups' bindings, are all in one project is shown the VMs of that
-- project alone by `GET /vms`, whatever project the request names. Authentication is on, the token is valid,
-- and no bootstrap administrator is configured.
pub tenant_isolated :
    (auth : AuthState) (o : Outer) (t : Tables) (r : Request) (token : String) (c : Claims) (p : ℕ)
    (rows seen : List VmRow)
    → auth.authenticator ≡ true
    → auth.bootstrap_admin ≡ none
    → r.bearer ≡ some token
    → o.validate token ≡ some c
    → IsTenant p (o.user_of c.subject) c.groups t
    → handle_list auth o t r rows ≡ ok seen
    → All (λ v. v.project_id ≡ some p) seen
unfolding handle_list auth_user caller bootstrap require
tenant_isolated auth o t r token c p rows seen on plain bearer valid tenant h =
    go (resolve_scope auth o t r) (rw (on, bearer, valid, plain) at h)
  where
    held : Scope → List String
    held scope = effective_permissions t (o.user_of c.subject) c.groups (project_filter scope)

    passed :
        (scope : Scope) (b : Bool)
        → any (λ q. str_eq q "vm:read") (held scope) ≡ b
        → (let checked : Result ApiError (Unit {0}) =
              if b then ok tt else err (forbidden "vm:read") in
            checked >>= λ _. ok (list_vms scope rows))
          ≡ ok seen
        → All (λ v. v.project_id ≡ some p) seen
    passed scope false e k = absurd cc
    passed scope true e k =
        let within = scope_lem p t (o.user_of c.subject) c.groups tenant scope "vm:read" e in
        let same : list_vms scope rows ≡ seen = cc in
        subst (λ vs. All (λ v. v.project_id ≡ some p) vs) same (rw within (list_vms-IsOwn p rows))

    go :
        (res : Result ApiError Scope)
        → (let user : Result ApiError AuthUser = res >>= λ scope. ok (record {
          user = some (o.user_of c.subject);
          permissions = held scope;
          groups = c.groups;
          superuser = false;
        }) in
            user >>= λ user.
            res >>= λ scope. require user "vm:read" >>= λ _. ok (list_vms scope rows))
          ≡ ok seen
        → All (λ v. v.project_id ≡ some p) seen
    go (err e) k = absurd cc
    go (ok scope) k = passed scope _ refl k
