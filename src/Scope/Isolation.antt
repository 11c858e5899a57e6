-- ===== src/Scope/Isolation.antt =====
-- What a resolved scope guarantees about the caller's tenant and store.
use aris_cloud.Prelude.{
  ℕ, ◌≡◌, true, false, Option, none, some, List, arith, inl, inr, Option-cases,
}
use aris_cloud.Prelude.Result.{ok}
use aris_cloud.Scope.{
  TokenData, Store, find_store, is_superadmin, has_broad_store_role, resolve_scope,
}

-- A caller who is no superadmin works in the tenant of the token, and on a store that is registered
-- for that tenant.
pub resolve_scope-own_tenant :
    (token : TokenData) (stores : List Store) (tenant_id store_id : Option ℕ) {t s : ℕ}
    → is_superadmin (some token.role) ≡ false
    → resolve_scope token stores tenant_id store_id ≡ ok (t, s)
    → (token.tenant_id ≡ some t)
      × (row : Store) × (find_store stores s ≡ some row)
      × (row.tenant_id ≡ t)
unfolding resolve_scope
resolve_scope-own_tenant token stores tenant_id store_id {t} {s} plain h =
    elim (Option-cases (find_store stores s)) [
      | inl missing ↦ absurd (ground arith)
      | inr (row, found) ↦ (ground arith, row, found, ground arith)
    ]

-- A token that is bound to a store, and whose role is not a broad one, works on that store alone.
pub resolve_scope-own_store :
    (token : TokenData) (stores : List Store) (tenant_id store_id : Option ℕ) {k t s : ℕ}
    → token.store_id ≡ some k
    → has_broad_store_role token ≡ false
    → resolve_scope token stores tenant_id store_id ≡ ok (t, s)
    → s ≡ k
unfolding resolve_scope
resolve_scope-own_store token stores tenant_id store_id bound narrow h = ground arith

-- A superadmin whose token has a tenant and is bound to no store, and who names a tenant and any
-- registered store, gets that pair, also where the store belongs to another tenant than the one named.
pub resolve_scope-superadmin_any :
    (token : TokenData) (stores : List Store) (t s : ℕ) {own : ℕ} {row : Store}
    → is_superadmin (some token.role) ≡ true
    → token.tenant_id ≡ some own
    → token.store_id ≡ none
    → find_store stores s ≡ some row
    → resolve_scope token stores (some t) (some s) ≡ ok (t, s)
unfolding resolve_scope
resolve_scope-superadmin_any token stores t s admin home free found = ground arith
