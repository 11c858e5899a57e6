-- ===== src/Access/Decision.antt =====
-- When a permission is granted.
use aris_cloud.Prelude.{◌≡◌, ◌⊎◌, ◌↔◌, true, false, Option, some, arith}
use aris_cloud.Prelude.Text.{Text, strip, member}
use aris_cloud.Scope.{TokenData}
use aris_cloud.Access.{
  AccessDb, RequestContext, PolicySets, sets_for_role, resolve_role_scope, evaluate_sets,
  evaluate_permission,
}

-- No level denies the key.
pub record IsUndenied (p : PolicySets) (key : Text) : Type 0 where
  pub by_resolver : member key p.deny_permissions ≡ false
  pub by_user : member key p.user_deny ≡ false
  pub by_store : member key p.store_deny ≡ false
  pub by_tenant : member key p.tenant_deny ≡ false

-- Some level grants the key.
abbrev pub IsAllowed : PolicySets → Text → Type 0
IsAllowed p key =
    (member key p.user_allow ≡ true)
    ⊎ ((member key p.store_allow ≡ true)
        ⊎ ((member key p.tenant_allow ≡ true) ⊎ (member key p.base_allowed ≡ true)))

pub evaluate_sets-allowed :
    (p : PolicySets) (key : Text)
    → ((evaluate_sets p key).allowed ≡ true) ↔ (IsUndenied p key × IsAllowed p key)
unfolding evaluate_sets
evaluate_sets-allowed p key = (λ h. (ground arith, ground arith), λ h. ground arith)

-- For a caller with a role, a permission is granted exactly when the catalogue has it, no level
-- denies it (resolver, user, store policy, tenant policy), and some level allows it.
pub evaluate_permission-allowed :
    (db : AccessDb) (permission_key : Text) (context : RequestContext)
    (token_data : Option TokenData) {role_name : Text}
    → (resolve_role_scope context token_data).role ≡ some role_name
    → let key = strip permission_key in
      let p = sets_for_role db context (resolve_role_scope context token_data) role_name in
      ((evaluate_permission db permission_key context token_data).allowed ≡ true)
      ↔ ((member key db.catalog ≡ true) × IsUndenied p key × IsAllowed p key)
unfolding evaluate_permission
evaluate_permission-allowed db permission_key context token_data {role_name} has_role =
    let key = strip permission_key in
    let p = sets_for_role db context (resolve_role_scope context token_data) role_name in
    let ladder = evaluate_sets-allowed p key in
    let inverse = λ (h : (evaluate_permission db permission_key context token_data).allowed ≡ true).
      ladder.0 (ground arith) in
    (λ h. (ground arith, (inverse h).0, (inverse h).1), λ h. ground (arith, ladder.1 (h.1, h.2)))
