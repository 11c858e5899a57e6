-- ===== src/Sales.antt =====
-- Sales: the rows of app/aris3/db/models.py that `sale_action` of app/aris3/routers/pos_sales.py reads
-- and writes, with the requests of app/aris3/schemas/pos_sales.py. The stock rows and what a session
-- does to them are those of the transfers; the copies of an item that a sale's line keeps, the EPC
-- assignments and the payment rows are left out.
pub mod Policy
pub mod Refund
pub mod Checkout
pub mod Actions
pub mod Unlabeled
pub mod Labels
pub mod Duplicates
pub mod Twice
use aris_cloud.Prelude.{
  ℕ, suc, ◌+◌, ◌-◌, ◌≤◌, ◌<◌, ◌↔◌, ◌∙◌, ap, inr, inl, sym, Bool-cases, refl, ◌≡◌, ◌≢◌, Bool, true,
  false, not, ◌&&◌, ◌||◌, List, [], ◌∷◌, ◌++◌, map, if◌then◌else◌, is_empty, arith, All, any,
  select, first, length, ◌⊎◌, Option, none, some, ◌==◌, ltb, leb, max, is_some, is_just, or_else,
  first_some, ==_iff, Option-cases,
}
use aris_cloud.Prelude.Int.{
  ℤ, pos, negsuc, ◌+ℤ◌, ◌-ℤ◌, ◌≤ℤ◌, leb_ℤ, ltb_ℤ, int_laws, +ℤ_parts, -ℤ_parts, eq_of_parts,
}
use aris_cloud.Prelude.Result.{
  Result, ok, err, ◌>>=◌, ◌>>◌, raise_if, or_raise, Ensures, Ensures-bind, Ensures-map,
  or_raise-some, Ensures-ok, Ensures-if, Ensures-raise_if, AppError, validation_error,
  business_conflict, resource_not_found, permission_denied, idempotency_key_required,
  idempotency_request_in_progress, idempotency_key_reused_with_different_payload,
}
use aris_cloud.Prelude.Text.{Text, codes, text_eq, member, upper}
use aris_cloud.Access.{AccessDb, RequestContext}
use aris_cloud.Scope.{TokenData, Store}
use aris_cloud.Cash.Db.{Caller, CashDb}
use aris_cloud.Cash.Flow.{require_open_cash_session}
use aris_cloud.Transfers.{StockItem, LineType}
use aris_cloud.Returns.{ReturnedLine, PosReturnEvent}
use aris_cloud.Payments.{PosPaymentCreate}
use aris_cloud.Advances.Handlers.{AdvanceDb, AdvanceRef}

pub record SaleRow : Type 0 where
  pub id : ℕ
  pub tenant_id : ℕ
  pub store_id : ℕ
  pub status : Text
  pub total_due : ℤ
  pub paid_total : ℤ
  pub balance_due : ℤ
  pub change_due : ℤ
  pub checked_out_at : Option ℕ
  pub receipt_number : Option Text

pub record SaleLineRow : Type 0 where
  pub id : ℕ
  pub sale_id : ℕ
  pub line_type : LineType
  pub qty : ℕ
  pub unit_price : ℤ
  pub line_total : ℤ
  pub sku : Option Text
  pub description : Option Text
  pub var1_value : Option Text
  pub var2_value : Option Text
  pub epc : Option Text
  pub location_code : Option Text
  pub pool : Option Text
  pub status : Option Text

pub record SaleReturnEvent : Type 0 where
  pub sale_id : ℕ
  pub event : PosReturnEvent
  pub refund_subtotal : ℤ
  pub restocking_fee : ℤ
  pub refund_total : ℤ
  pub exchange_total : ℤ
  pub net_adjustment : ℤ

pub data LabelStrategy : Type 0 where
  assign_new_epc to_pending : LabelStrategy

-- The settings of a tenant. The fee on a subtotal is the percentage of it, which Python's Decimal
-- rounds to cents.
pub record ReturnPolicySettings : Type 0 where
  pub return_window : ℕ
  pub require_receipt : Bool
  pub allow_refund_cash : Bool
  pub allow_refund_card : Bool
  pub allow_refund_transfer : Bool
  pub allow_exchange : Bool
  pub require_manager_for_exceptions : Bool
  pub accepted_conditions : List Text
  pub non_reusable_label_strategy : LabelStrategy
  pub restocking_fee_of : ℤ → ℤ

-- The tables. The stock stands in the order of `created_at`; the cash is that of the advances.
pub record SaleDb : Type 0 where
  pub stores : List Store
  pub sales : List SaleRow
  pub lines : List SaleLineRow
  pub stock : List StockItem
  pub events : List SaleReturnEvent
  pub vouchers : AdvanceDb

-- Who asks: the cashier for the drawer, the token, the access tables, and the texts of new EPCs.
pub record Seller : Type 0 where
  pub caller : Caller
  pub token : TokenData
  pub access : AccessDb
  pub context : RequestContext
  pub role : Text
  pub policy : ReturnPolicySettings
  pub new_stock_id : ℕ → ℕ
  pub new_epc : ℕ → Text

pub record SaleReturnItem : Type 0 where
  pub line_id : ℕ
  pub qty : ℕ
  pub condition : Text

pub data SaleAction : Type 0 where
  cancel refund_items checkout other_sale_action : SaleAction

-- A payment, with the advance that one of method ADVANCE names.
pub record SalePayment : Type 0 where
  pub payment : PosPaymentCreate
  pub advance : AdvanceRef

pub record PosSaleActionRequest : Type 0 where
  pub transaction_id : Option Text
  pub action : SaleAction
  pub payments : List SalePayment
  pub refund_payments : List PosPaymentCreate
  pub return_items : List SaleReturnItem
  pub receipt_number : Option Text
  pub manager_override : Bool

abbrev pub paid : Text
paid = codes "PAID"

abbrev pub draft_sale : Text
draft_sale = codes "DRAFT"

abbrev pub sold : Option Text
sold = some (codes "SOLD")

-- `PosSaleRepository.get_lines`
unfoldable pub lines_of : ℕ → List SaleLineRow → List SaleLineRow
lines_of sale_id = select (λ l. l.sale_id == sale_id)

unfoldable pub find_sale : ℕ → List SaleRow → Option SaleRow
find_sale id sales = first (select (λ s. s.id == id) sales)

abbrev pub events_of : ℕ → List SaleReturnEvent → List PosReturnEvent
events_of sale_id events = map (λ e. e.event) (select (λ e. e.sale_id == sale_id) events)

-- The caller of the drawer of the sale's store.
abbrev pub caller_at : Seller → SaleRow → Caller
caller_at c sale = record c.caller { tenant_id = sale.tenant_id; store_id = sale.store_id }

-- The session that cash needs; the drawer's operations find the same one.
unfoldable pub check_cash_session : Caller → ℤ → CashDb → Result (Unit {0})
unfolding require_open_cash_session
check_cash_session c cash db =
    if leb_ℤ cash (pos 0) then ok tt else do require_open_cash_session c db; ok tt

-- The row of the sale takes its new values.
unfoldable pub put_sale : SaleRow → List SaleRow → List SaleRow
put_sale s = map (λ r. if r.id == s.id then s else r)

-- `line_lookup.get(line_id)`
unfoldable pub find_sale_line : ℕ → List SaleLineRow → Option SaleLineRow
find_sale_line id [] = none
find_sale_line id (l ∷ ls) = if l.id == id then some l else find_sale_line id ls
