-- ===== src/Access.antt =====
-- app/aris3/services/access_control.py: the decision on a permission from the role template, the
-- tenant's and the store's policies for the role, and the user's overrides; with the queries of
-- app/aris3/repos/rbac.py and app/aris3/repos/access_control.py. The cache of a request repeats what
-- the first query gave, so each policy set is read from the tables. A Python set is a list here.
pub mod Decision
pub mod Listing
use aris_cloud.Prelude.{
  ℕ, Bool, true, false, not, ◌&&◌, ◌||◌, Option, none, some, List, [], ◌∷◌, ◌++◌, map, ◌==◌,
  if◌then◌else◌, or_else, first_some, is_just, is_empty, select,
}
use aris_cloud.Prelude.Text.{Text, codes, upper, lower, strip, text_eq, member}
use aris_cloud.Scope.{TokenData}

pub data Source : Type 0 where
  unknown_permission default_deny explicit_deny : Source
  user_override_deny store_policy_deny tenant_policy_deny : Source
  user_override_allow store_policy_allow tenant_policy_allow role_template : Source

pub record PermissionDecision : Type 0 where
  pub key : Text
  pub allowed : Bool
  pub source : Source

pub record RequestContext : Type 0 where
  pub user_id : Option ℕ
  pub tenant_id : Option ℕ
  pub store_id : Option ℕ
  pub role : Option Text

-- A permission of a role template, the three joined tables in one row.
pub record TemplatePermission : Type 0 where
  pub tenant_id : Option ℕ
  pub name : Text
  pub code : Text

pub record TenantRolePolicy : Type 0 where
  pub tenant_id : Option ℕ
  pub role_name : Text
  pub permission_code : Text
  pub effect : Option Text

pub record StoreRolePolicy : Type 0 where
  pub tenant_id : ℕ
  pub store_id : ℕ
  pub role_name : Text
  pub permission_code : Text
  pub effect : Option Text

pub record UserPermissionOverride : Type 0 where
  pub tenant_id : ℕ
  pub user_id : ℕ
  pub permission_code : Text
  pub effect : Option Text

-- The tables, with the catalogue's codes in order, and the service's deny resolvers.
pub record AccessDb : Type 0 where
  pub catalog : List Text
  pub templates : List TemplatePermission
  pub tenant_policies : List TenantRolePolicy
  pub store_policies : List StoreRolePolicy
  pub user_overrides : List UserPermissionOverride
  pub deny_resolvers : List (RequestContext → List Text)

-- `tenant_id is None` selects the rows without a tenant.
same_tenant : Option ℕ → Option ℕ → Bool
same_tenant none none = true
same_tenant (some a) (some b) = a == b
same_tenant _ _ = false

unfoldable pub list_permissions_for_role : AccessDb → Text → Option ℕ → List Text
unfolding same_tenant text_eq
list_permissions_for_role db role_name tenant_id =
    map (λ r. r.code)
      (select (λ r. text_eq r.name role_name && same_tenant r.tenant_id tenant_id) db.templates)

unfoldable pub get_allowed_permissions : AccessDb → Text → Option ℕ → List Text
unfolding list_permissions_for_role
get_allowed_permissions db role_name none = list_permissions_for_role db role_name none
get_allowed_permissions db role_name (some t) =
    let permissions = list_permissions_for_role db role_name (some t) in
    if is_empty permissions then list_permissions_for_role db role_name none else permissions

-- The loop that splits policy rows into an allow set and a deny set.
unfoldable pub split_effects : List (Text × Option Text) → List Text × List Text
unfolding lower text_eq
split_effects [] = ([], [])
split_effects ((code, effect) ∷ entries) =
    let (allow, deny) = split_effects entries in
    if text_eq (lower (or_else effect [])) (codes "deny")
    then (allow, code ∷ deny)
    else (code ∷ allow, deny)

unfoldable pub get_tenant_role_policy : AccessDb → Option ℕ → Text → List Text × List Text
unfolding same_tenant split_effects text_eq
get_tenant_role_policy db tenant_id role_name = split_effects (
    map (λ r. (r.permission_code, r.effect))
      (select (λ r. text_eq r.role_name role_name && same_tenant r.tenant_id tenant_id)
        db.tenant_policies))

unfoldable pub get_user_overrides : AccessDb → Option ℕ → Option ℕ → List Text × List Text
unfolding split_effects
get_user_overrides db (some t) (some u) = split_effects (
    map (λ r. (r.permission_code, r.effect))
      (select (λ r. r.tenant_id == t && r.user_id == u) db.user_overrides))
get_user_overrides db _ _ = ([], [])

unfoldable pub get_store_role_policy : AccessDb → Option ℕ → Option ℕ → Text → List Text × List Text
unfolding split_effects text_eq
get_store_role_policy db (some t) (some s) role_name = split_effects (
    map (λ r. (r.permission_code, r.effect))
      (select (λ r. text_eq r.role_name role_name && r.tenant_id == t && r.store_id == s)
        db.store_policies))
get_store_role_policy db _ _ role_name = ([], [])

unfoldable pub get_denied_permissions :
    List (RequestContext → List Text) → RequestContext → List Text
get_denied_permissions [] context = []
get_denied_permissions (resolver ∷ resolvers) context =
    resolver context ++ get_denied_permissions resolvers context

pub record RoleScope : Type 0 where
  pub role : Option Text
  pub tenant_id : Option ℕ
  pub store_id : Option ℕ

-- `x or None`
none_if_empty : Text → Option Text
none_if_empty [] = none
none_if_empty (c ∷ s) = some (c ∷ s)

-- `context.role or (token_data.role if token_data else "")`: an empty text counts as missing.
role_text : Option Text → Option TokenData → Text
role_text (some (c ∷ s)) token_data = c ∷ s
role_text _ none = []
role_text _ (some token) = token.role

token_tenant : Option TokenData → Option ℕ
token_tenant none = none
token_tenant (some token) = token.tenant_id

token_store : Option TokenData → Option ℕ
token_store none = none
token_store (some token) = token.store_id

unfoldable pub resolve_role_scope : RequestContext → Option TokenData → RoleScope
unfolding none_if_empty role_text token_tenant token_store upper
resolve_role_scope context token_data = record {
  role = none_if_empty (upper (role_text context.role token_data));
  tenant_id = first_some context.tenant_id (token_tenant token_data);
  store_id = first_some context.store_id (token_store token_data);
}

-- The sets that a decision reads.
pub record PolicySets : Type 0 where
  pub base_allowed : List Text
  pub tenant_allow : List Text
  pub tenant_deny : List Text
  pub store_allow : List Text
  pub store_deny : List Text
  pub user_allow : List Text
  pub user_deny : List Text
  pub deny_permissions : List Text

-- The sets for a request whose role is known.
unfoldable pub sets_for_role : AccessDb → RequestContext → RoleScope → Text → PolicySets
sets_for_role db context scope role_name = record {
  base_allowed = get_allowed_permissions db role_name scope.tenant_id;
  tenant_allow = (get_tenant_role_policy db scope.tenant_id role_name).0;
  tenant_deny = (get_tenant_role_policy db scope.tenant_id role_name).1;
  store_allow = (get_store_role_policy db scope.tenant_id scope.store_id role_name).0;
  store_deny = (get_store_role_policy db scope.tenant_id scope.store_id role_name).1;
  user_allow = (get_user_overrides db scope.tenant_id context.user_id).0;
  user_deny = (get_user_overrides db scope.tenant_id context.user_id).1;
  deny_permissions = get_denied_permissions db.deny_resolvers context;
}

abbrev decision : Text → Bool → Source → PermissionDecision
decision k a s = record { key = k; allowed = a; source = s }

-- The ladder at the end of `evaluate_permission`.
unfoldable pub evaluate_sets : PolicySets → Text → PermissionDecision
evaluate_sets p key =
    if member key p.deny_permissions
    then decision key false explicit_deny
    else if member key p.user_deny
    then decision key false user_override_deny
    else if member key p.store_deny
    then decision key false store_policy_deny
    else if member key p.tenant_deny
    then decision key false tenant_policy_deny
    else if member key p.user_allow
    then decision key true user_override_allow
    else if member key p.store_allow
    then decision key true store_policy_allow
    else if member key p.tenant_allow
    then decision key true tenant_policy_allow
    else if member key p.base_allowed
    then decision key true role_template
    else decision key false default_deny

unfoldable pub evaluate_role :
    AccessDb → RequestContext → RoleScope → Option Text → Text → PermissionDecision
evaluate_role db context scope none key = decision key false default_deny
evaluate_role db context scope (some role_name) key =
    evaluate_sets (sets_for_role db context scope role_name) key

unfoldable pub evaluate_permission :
    AccessDb → Text → RequestContext → Option TokenData → PermissionDecision
unfolding evaluate_role
evaluate_permission db permission_key context token_data =
    let key = strip permission_key in
    let scope = resolve_role_scope context token_data in
    if not (member key db.catalog)
    then decision key false unknown_permission
    else evaluate_role db context scope scope.role key

-- The body of the loop of `_build_decisions`.
unfoldable pub build_decision : PolicySets → Text → PermissionDecision
build_decision p key =
    if member key p.deny_permissions
    then decision key false explicit_deny
    else if member key p.user_deny
    then decision key false user_override_deny
    else if member key p.store_deny
    then decision key false store_policy_deny
    else if member key p.tenant_deny
    then decision key false tenant_policy_deny
    else if member key p.user_allow
    then decision key true user_override_allow
    else if member key p.store_allow
    then decision key true store_policy_allow
    else if member key p.tenant_allow
    then decision key true tenant_policy_allow
    else if member key p.base_allowed
    then decision key true role_template
    else decision key false default_deny

unfoldable pub build_decisions : List Text → PolicySets → List PermissionDecision
build_decisions [] p = []
build_decisions (key ∷ catalog) p = build_decision p key ∷ build_decisions catalog p

-- Without a role the template and the role policies are empty; the user's overrides are not.
unfoldable pub effective_sets : AccessDb → RequestContext → RoleScope → Option Text → PolicySets
effective_sets db context scope (some role_name) = sets_for_role db context scope role_name
effective_sets db context scope none = record {
  base_allowed = [];
  tenant_allow = [];
  tenant_deny = [];
  store_allow = [];
  store_deny = [];
  user_allow = (get_user_overrides db scope.tenant_id context.user_id).0;
  user_deny = (get_user_overrides db scope.tenant_id context.user_id).1;
  deny_permissions = get_denied_permissions db.deny_resolvers context;
}

unfoldable pub build_effective_permissions :
    AccessDb → RequestContext → Option TokenData → List PermissionDecision
build_effective_permissions db context token_data =
    let scope = resolve_role_scope context token_data in
    build_decisions db.catalog (effective_sets db context scope scope.role)
