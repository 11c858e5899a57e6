-- ===== src/Sales/Actions.antt =====
-- `sale_action` of app/aris3/routers/pos_sales.py, but for EXCHANGE_ITEMS. Idempotency stands before the
-- action (the module Idempotency).
use aris_cloud.Prelude.{ℕ, true, not, if◌then◌else◌, none, some, ◌==◌}
use aris_cloud.Prelude.Result.{
  Result, ok, err, ◌>>=◌, ◌>>◌, raise_if, or_raise, validation_error, resource_not_found,
}
use aris_cloud.Prelude.Result.{
  store_scope_required, cross_tenant_access_denied, store_scope_mismatch,
}
use aris_cloud.Transfers.Lines.{truthy}
use aris_cloud.Sales.{find_sale}
use aris_cloud.Scope.{
  TokenData, enforce_store_scope, resolve_tenant_id, enforce_tenant_scope, has_broad_store_role,
}
use aris_cloud.Prelude.Text.{codes, text_eq}
use aris_cloud.Sales.{
  SaleRow, SaleDb, Seller, PosSaleActionRequest, SaleAction, cancel, refund_items, checkout,
  other_sale_action, draft_sale, put_sale,
}
use aris_cloud.Sales.Refund.{refund_sale_items}
use aris_cloud.Sales.Checkout.{checkout_sale}

unfoldable pub cancel_sale : SaleRow → SaleDb → Result SaleDb
unfolding text_eq put_sale
cancel_sale sale db = do
  raise_if (not (text_eq sale.status draft_sale)) validation_error
  ok (record db { sales = put_sale (record sale { status = codes "CANCELED" }) db.sales })

-- The branches on the action, for the sale that was found.
unfoldable pub act_on_sale :
    Seller → PosSaleActionRequest → SaleAction → SaleRow → SaleDb → Result SaleDb
unfolding cancel_sale refund_sale_items checkout_sale
act_on_sale c payload cancel sale db = cancel_sale sale db
act_on_sale c payload refund_items sale db = refund_sale_items c payload sale db
act_on_sale c payload checkout sale db = checkout_sale c payload sale db
act_on_sale c payload other_sale_action sale db = err validation_error

-- `_resolve_store_id`, when no store is asked for.
unfoldable pub own_store : TokenData → Result ℕ
unfolding has_broad_store_role
own_store token = elim token.store_id [
  | some s ↦ ok s
  | none ↦ if has_broad_store_role token then err validation_error else err store_scope_required
]

unfoldable pub sale_action : Seller → ℕ → PosSaleActionRequest → SaleDb → Result SaleDb
unfolding truthy resolve_tenant_id enforce_tenant_scope find_sale own_store enforce_store_scope
    act_on_sale
sale_action c sale_id payload db = do
  raise_if (not (truthy payload.transaction_id)) validation_error
  tenant ← resolve_tenant_id c.token c.token.tenant_id
  enforce_tenant_scope c.token (some tenant) true
  sale ← or_raise (find_sale sale_id db.sales) resource_not_found
  raise_if (not (sale.tenant_id == tenant)) cross_tenant_access_denied
  store ← own_store c.token
  enforce_store_scope c.token (some store) db.stores true
  raise_if (not (sale.store_id == store)) store_scope_mismatch
  act_on_sale c payload payload.action sale db
