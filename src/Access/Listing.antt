-- ===== src/Access/Listing.antt =====
-- The listing of effective permissions against the decision that guards a request.
use aris_cloud.Prelude.{
  ◌≡◌, ap, refl, true, false, Option, none, some, List, [], ◌∷◌, arith, if◌then◌else◌,
}
use aris_cloud.Prelude.Text.{Text, strip, text_eq, text_eq_iff, member}
use aris_cloud.Scope.{TokenData}
use aris_cloud.Access.{
  AccessDb, RequestContext, PermissionDecision, PolicySets, resolve_role_scope, evaluate_sets,
  get_user_overrides, get_denied_permissions, sets_for_role, effective_sets, build_decision,
  build_decisions, evaluate_permission, build_effective_permissions, default_deny,
  user_override_allow,
}

-- The decision that a listing shows for a key.
abbrev pub shown : Text → List PermissionDecision → Option PermissionDecision
shown key [] = none
shown key (d ∷ ds) = if text_eq key d.key then some d else shown key ds

build_decision_key : (p : PolicySets) (key : Text) → (build_decision p key).key ≡ key
unfolding build_decision
build_decision_key p key = ground arith

build-eq-evaluate : (p : PolicySets) (key : Text) → build_decision p key ≡ evaluate_sets p key
unfolding build_decision evaluate_sets
build-eq-evaluate p key = ground arith

shown-build_decisions :
    (catalog : List Text) (p : PolicySets) (key : Text)
    → member key catalog ≡ true
    → shown key (build_decisions catalog p) ≡ some (build_decision p key)
unfolding build_decisions member
shown-build_decisions [] p key h = cc
shown-build_decisions (k ∷ catalog) p key h =
    ground (arith, build_decision_key p k, text_eq_iff key k, shown-build_decisions catalog p key)

-- For a caller with a role, the listing shows for each key of the catalogue the very decision, with
-- its source, by which a request is admitted or refused.
pub build_effective_permissions-agrees :
    (db : AccessDb) (permission_key : Text) (context : RequestContext)
    (token_data : Option TokenData) {role_name : Text}
    → (resolve_role_scope context token_data).role ≡ some role_name
    → member (strip permission_key) db.catalog ≡ true
    → shown (strip permission_key) (build_effective_permissions db context token_data)
      ≡ some (evaluate_permission db permission_key context token_data)
unfolding build_effective_permissions evaluate_permission effective_sets
build_effective_permissions-agrees db permission_key context token_data {role_name} has_role known =
    let scope = resolve_role_scope context token_data in
    let key = strip permission_key in
    let p = sets_for_role db context scope role_name in
    ground (arith, shown-build_decisions db.catalog p key known, build-eq-evaluate p key)

build_decision-user :
    (p : PolicySets) (key : Text)
    → member key p.deny_permissions ≡ false
    → member key p.user_deny ≡ false
    → member key p.store_deny ≡ false
    → member key p.tenant_deny ≡ false
    → member key p.user_allow ≡ true
    → build_decision p key ≡ record { key = key; allowed = true; source = user_override_allow }
unfolding build_decision
build_decision-user p key resolver user store tenant allowed = ground arith

-- Without a role the two differ: a key that only the user's overrides allow is listed as allowed,
-- and a request for it is refused.
pub build_effective_permissions-roleless :
    (db : AccessDb) (permission_key : Text) (context : RequestContext)
    (token_data : Option TokenData)
    → let scope = resolve_role_scope context token_data in
      let key = strip permission_key in
      let overrides = get_user_overrides db scope.tenant_id context.user_id in
      scope.role ≡ none
      → member key db.catalog ≡ true
      → member key (get_denied_permissions db.deny_resolvers context) ≡ false
      → member key overrides.1 ≡ false
      → member key overrides.0 ≡ true
      → (shown key (build_effective_permissions db context token_data)
          ≡ some (record { key = key; allowed = true; source = user_override_allow }))
        × (evaluate_permission db permission_key context token_data
            ≡ record { key = key; allowed = false; source = default_deny })
unfolding build_effective_permissions evaluate_permission effective_sets member
build_effective_permissions-roleless db permission_key context token_data roleless known h d a =
    let scope = resolve_role_scope context token_data in
    let key = strip permission_key in
    let p = effective_sets db context scope none in
    (
      rw (roleless, shown-build_decisions db.catalog p key known)
          (ap some (build_decision-user p key h d refl refl a)),
      ground arith,
    )
