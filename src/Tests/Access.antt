-- ===== src/Tests/Access.antt =====
-- Decisions of app/aris3/services/access_control.py.
use aris_cloud.Prelude.{◌≡◌, refl, ◌↔◌, true, false, some, none, [], ◌∷◌}
use aris_cloud.Prelude.Text.{Text, codes, strip, member}
use aris_cloud.Access.{
  AccessDb, RequestContext, sets_for_role, resolve_role_scope, get_user_overrides,
  get_denied_permissions, evaluate_permission, evaluate_sets, build_effective_permissions,
  get_allowed_permissions, get_tenant_role_policy, get_store_role_policy, user_override_allow,
  default_deny, tenant_policy_deny,
}
use aris_cloud.Access.Decision.{IsUndenied, IsAllowed, evaluate_permission-allowed}
use aris_cloud.Access.Listing.{
  shown, build_effective_permissions-agrees, build_effective_permissions-roleless,
}

abbrev sell : Text
sell = codes "SELL"

-- The user's override allows what the tenant denies to the role.
abbrev db : AccessDb
db = record {
  catalog = sell ∷ [];
  templates = [];
  tenant_policies =
      record {
        tenant_id = some 1;
        role_name = codes "CLERK";
        permission_code = sell;
        effect = some (codes "DENY");
      }
      ∷ [];
  store_policies = [];
  user_overrides =
      record { tenant_id = 1; user_id = 7; permission_code = sell; effect = some (codes "allow") }
      ∷ [];
  deny_resolvers = [];
}

abbrev clerk : RequestContext
clerk = record {
  user_id = some 7;
  tenant_id = some 1;
  store_id = none;
  role = some (codes "clerk");
}

abbrev roleless : RequestContext
roleless = record { user_id = some 7; tenant_id = some 1; store_id = none; role = none }

tenant_deny_wins :
    evaluate_permission db (codes " SELL ") clerk none
    ≡ record { key = sell; allowed = false; source = tenant_policy_deny }
unfolding evaluate_permission evaluate_sets sets_for_role resolve_role_scope get_user_overrides
    get_denied_permissions get_allowed_permissions get_tenant_role_policy get_store_role_policy
    member strip
tenant_deny_wins = refl

evaluate_permission-allowed_example : ((evaluate_permission db sell clerk none).allowed ≡ true) ↔ (
    (member (strip sell) db.catalog ≡ true)
    × IsUndenied
        (sets_for_role db clerk (resolve_role_scope clerk none) (codes "CLERK"))
        (strip sell)
    × IsAllowed
        (sets_for_role db clerk (resolve_role_scope clerk none) (codes "CLERK"))
        (strip sell))
unfolding resolve_role_scope
evaluate_permission-allowed_example =
    evaluate_permission-allowed db sell clerk none {role_name = codes "CLERK"} refl

build_effective_permissions-agrees_example :
    shown (strip sell) (build_effective_permissions db clerk none)
    ≡ some (evaluate_permission db sell clerk none)
unfolding resolve_role_scope member strip
build_effective_permissions-agrees_example =
    build_effective_permissions-agrees db sell clerk none {role_name = codes "CLERK"} refl refl

build_effective_permissions-roleless_example :
    (shown (strip sell) (build_effective_permissions db roleless none)
      ≡ some (record { key = strip sell; allowed = true; source = user_override_allow }))
    × (evaluate_permission db sell roleless none
        ≡ record { key = strip sell; allowed = false; source = default_deny })
unfolding resolve_role_scope member strip get_user_overrides get_denied_permissions
build_effective_permissions-roleless_example =
    build_effective_permissions-roleless db sell roleless none refl refl refl refl refl
