-- ===== src/Scope.antt =====
-- app/aris3/core/scope.py, and the resolution of a request's tenant and store that stands at the top
-- of each handler (as in app/aris3/routers/pos_cash.py). Ids are UUID texts, which the code only
-- compares: they are numbers here, and a missing or empty id is `none`.
pub mod Isolation
use aris_cloud.Prelude.{
  ℕ, Bool, true, not, ◌&&◌, ◌||◌, Option, none, some, List, [], ◌∷◌, map, ◌==◌, if◌then◌else◌,
  or_else, is_just, is_some, first, select,
}
use aris_cloud.Prelude.Text.{Text, codes, upper, member}
use aris_cloud.Prelude.Result.{
  Result, ok, err, ◌>>=◌, ◌>>◌, raise_if, tenant_scope_required, cross_tenant_access_denied,
  store_scope_required, store_scope_mismatch,
}

-- The claims of an access token that decide its scope.
pub record TokenData : Type 0 where
  pub tenant_id : Option ℕ
  pub store_id : Option ℕ
  pub role : Text

-- A row of the stores table.
pub record Store : Type 0 where
  pub id : ℕ
  pub tenant_id : ℕ

abbrev pub superadmin_roles : List Text
superadmin_roles = codes "SUPERADMIN" ∷ codes "PLATFORM_ADMIN" ∷ []

abbrev pub tenant_admin_roles : List Text
tenant_admin_roles = codes "ADMIN" ∷ []

abbrev pub default_broad_store_roles : List Text
default_broad_store_roles = codes "SUPERADMIN" ∷ codes "ADMIN" ∷ []

unfoldable pub normalize_role : Option Text → Text
unfolding upper
normalize_role role = upper (or_else role [])

unfoldable pub is_superadmin : Option Text → Bool
unfolding normalize_role member
is_superadmin role = member (normalize_role role) superadmin_roles

unfoldable pub is_tenant_admin : Option Text → Bool
unfolding normalize_role member
is_tenant_admin role = member (normalize_role role) tenant_admin_roles

unfoldable pub can_write_stock_or_assets : Option Text → Bool
unfolding normalize_role is_superadmin is_tenant_admin
can_write_stock_or_assets role = is_superadmin role || is_tenant_admin role

unfoldable pub can_read_tenant_scope : Option Text → Option (List Text) → Bool
unfolding normalize_role member upper
can_read_tenant_scope role broader_store_roles =
    member (normalize_role role) (map upper (or_else broader_store_roles default_broad_store_roles))

-- The test on the role in `enforce_store_scope` and in `_resolve_store_id`.
unfoldable pub has_broad_store_role : TokenData → Bool
unfolding normalize_role member upper
has_broad_store_role token =
    member (normalize_role (some token.role)) (map upper default_broad_store_roles)

unfoldable pub enforce_tenant_scope : TokenData → Option ℕ → Bool → Result (Unit {0})
enforce_tenant_scope token none allow_superadmin = err tenant_scope_required
enforce_tenant_scope token (some tenant_id) allow_superadmin =
    if not (is_some token.tenant_id)
    then err tenant_scope_required
    else if is_just token.tenant_id tenant_id
    then ok tt
    else if allow_superadmin && is_superadmin (some token.role)
    then ok tt
    else err cross_tenant_access_denied

-- The last tests of `enforce_store_scope`, on the store that was found.
unfoldable pub check_store : TokenData → ℕ → Store → Bool → Result Store
check_store token store_id store allow_superadmin =
    if not (is_just token.tenant_id store.tenant_id)
    then (if allow_superadmin && is_superadmin (some token.role)
        then ok store
        else err store_scope_mismatch)
    else if is_some token.store_id
        && not (has_broad_store_role token)
        && not (is_just token.store_id store_id)
    then err store_scope_mismatch
    else ok store

unfoldable pub find_store : List Store → ℕ → Option Store
find_store stores store_id = first (select (λ s. s.id == store_id) stores)

-- With the default `broader_store_roles`.
unfoldable pub enforce_store_scope : TokenData → Option ℕ → List Store → Bool → Result Store
unfolding check_store
enforce_store_scope token none stores allow_superadmin = err store_scope_required
enforce_store_scope token (some store_id) stores allow_superadmin =
    if not (is_some token.tenant_id)
    then err tenant_scope_required
    else elim (find_store stores store_id) [
      | none ↦ err store_scope_mismatch
      | some store ↦ check_store token store_id store allow_superadmin
    ]

-- A tenant from the token, which an explicit tenant must match.
unfoldable pub own_tenant : Option ℕ → Option ℕ → Result ℕ
own_tenant none tenant_id = err tenant_scope_required
own_tenant (some t) none = ok t
own_tenant (some t) (some tenant_id) =
    if tenant_id == t then ok t else err cross_tenant_access_denied

unfoldable pub resolve_tenant_id : TokenData → Option ℕ → Result ℕ
unfolding own_tenant
resolve_tenant_id token tenant_id =
    if is_superadmin (some token.role)
    then elim tenant_id [ none ↦ err tenant_scope_required | some t ↦ ok t ]
    else own_tenant token.tenant_id tenant_id

unfoldable pub bound_store : ℕ → Option ℕ → Result ℕ
bound_store s none = ok s
bound_store s (some requested) = if requested == s then ok s else err store_scope_mismatch

unfoldable pub free_store : Option ℕ → Option ℕ → Result ℕ
free_store own (some requested) = ok requested
free_store (some s) none = ok s
free_store none none = err store_scope_required

unfoldable pub resolve_store_id : TokenData → Option ℕ → Result ℕ
unfolding bound_store free_store
resolve_store_id token requested_store_id = elim token.store_id [
  | none ↦ free_store none requested_store_id
  | some s ↦
      if has_broad_store_role token
      then free_store (some s) requested_store_id
      else bound_store s requested_store_id
]

-- The four calls at the top of a handler: the tenant and the store that it works on.
unfoldable pub resolve_scope : TokenData → List Store → Option ℕ → Option ℕ → Result (ℕ × ℕ)
unfolding resolve_tenant_id enforce_tenant_scope resolve_store_id enforce_store_scope
resolve_scope token stores tenant_id store_id = do
  scoped_tenant_id ← resolve_tenant_id token tenant_id
  enforce_tenant_scope token (some scoped_tenant_id) true
  resolved_store_id ← resolve_store_id token store_id
  enforce_store_scope token (some resolved_store_id) stores true
  ok (scoped_tenant_id, resolved_store_id)
