-- ===== src/Tests/Scope.antt =====
-- Callers of app/aris3/core/scope.py.
use aris_cloud.Prelude.{ℕ, ◌≡◌, refl, some, none, List, [], ◌∷◌}
use aris_cloud.Prelude.Text.{codes}
use aris_cloud.Prelude.Result.{ok, err, store_scope_mismatch}
use aris_cloud.Scope.{
  TokenData, Store, find_store, is_superadmin, has_broad_store_role, resolve_scope,
}
use aris_cloud.Scope.Isolation.{
  resolve_scope-own_tenant, resolve_scope-own_store, resolve_scope-superadmin_any,
}

abbrev stores : List Store
stores = record { id = 5; tenant_id = 1 } ∷ record { id = 6; tenant_id = 2 } ∷ []

abbrev cashier : TokenData
cashier = record { tenant_id = some 1; store_id = some 5; role = codes "cashier" }

abbrev platform_admin : TokenData
platform_admin = record { tenant_id = some 1; store_id = none; role = codes "platform_admin" }

other_store_refused : resolve_scope cashier stores none (some 6) ≡ err store_scope_mismatch
unfolding resolve_scope is_superadmin has_broad_store_role find_store
other_store_refused = refl

resolve_scope-own_tenant_example :
    (cashier.tenant_id ≡ some 1)
    × (row : Store) × (find_store stores 5 ≡ some row)
    × (row.tenant_id ≡ 1)
unfolding resolve_scope is_superadmin has_broad_store_role find_store
resolve_scope-own_tenant_example =
    resolve_scope-own_tenant cashier stores none none {t = 1} {s = 5} refl refl

resolve_scope-own_store_example : ◌≡◌ {A = ℕ} 5 5
unfolding resolve_scope is_superadmin has_broad_store_role find_store
resolve_scope-own_store_example =
    resolve_scope-own_store cashier stores none none {k = 5} {t = 1} {s = 5} refl refl refl

resolve_scope-superadmin_any_example :
    resolve_scope platform_admin stores (some 1) (some 6) ≡ ok (1, 6)
unfolding is_superadmin find_store
resolve_scope-superadmin_any_example =
    resolve_scope-superadmin_any platform_admin stores 1 6 refl refl refl refl
