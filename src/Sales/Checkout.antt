-- ===== src/Sales/Checkout.antt =====
-- The action CHECKOUT of `sale_action` in app/aris3/routers/pos_sales.py.
use aris_cloud.Prelude.{
  ℕ, Bool, true, false, not, ◌&&◌, List, [], ◌∷◌, map, if◌then◌else◌, is_empty, select, none, some,
  ◌==◌, is_some, is_just,
}
use aris_cloud.Prelude.Int.{ℤ, pos, ◌+ℤ◌, ltb_ℤ}
use aris_cloud.Prelude.Result.{
  Result, ok, err, ◌>>=◌, ◌>>◌, raise_if, validation_error, business_conflict,
}
use aris_cloud.Prelude.Text.{text_eq}
use aris_cloud.Payments.{PaymentMethod}
use aris_cloud.Sales.{SalePayment}
use aris_cloud.Payments.{PaymentTotals, validate_payments}
use aris_cloud.Cash.Flow.{checkout_cash}
use aris_cloud.Advances.Handlers.{AdvanceDb, resolve_advance_for_checkout, checkout_advance}
use aris_cloud.Transfers.{StockItem, is_epc}
use aris_cloud.Transfers.Lines.{truthy}
use aris_cloud.Transfers.Stock.{Tracked, begin, commit, change_rows, write, same_text}
use aris_cloud.Sales.{
  SaleRow, SaleLineRow, SaleDb, Seller, PosSaleActionRequest, paid, sold, draft_sale, lines_of,
  put_sale, caller_at, check_cash_session,
}

-- The units that a line may sell.
unfoldable pub unsold_epc : SaleRow → SaleLineRow → StockItem → Bool
unfolding same_text
unsold_epc sale line x =
    x.tenant_id == sale.tenant_id
    && is_just x.store_id sale.store_id
    && same_text x.epc line.epc
    && (is_some x.status && not (same_text x.status sold))
    && same_text x.location_code line.location_code
    && same_text x.pool line.pool

unfoldable pub unsold_sku : SaleRow → SaleLineRow → StockItem → Bool
unfolding same_text
unsold_sku sale line x =
    x.tenant_id == sale.tenant_id
    && is_just x.store_id sale.store_id
    && same_text x.sku line.sku
    && (is_some x.status && not (same_text x.status sold))
    && not (is_some x.epc)
    && same_text x.location_code line.location_code
    && same_text x.pool line.pool

abbrev pub as_sold : StockItem → StockItem
as_sold x = record x { status = sold; location_is_vendible = false }

-- The EPC of a unit that is sold is free again.
unfoldable pub as_sold_epc : StockItem → StockItem
unfolding truthy
as_sold_epc x = record (as_sold x) { epc = if truthy x.epc then none else x.epc }

-- The body of the loop over the lines.
unfoldable pub sell_line : SaleRow → SaleLineRow → List Tracked → Result (List Tracked)
unfolding is_epc change_rows unsold_epc unsold_sku as_sold_epc
sell_line sale line rows =
    if is_epc line.line_type
    then change_rows (write as_sold_epc) validation_error (unsold_epc sale line) 1 rows
    else change_rows (write as_sold) validation_error (unsold_sku sale line) line.qty rows

unfoldable pub sell_lines : SaleRow → List SaleLineRow → List Tracked → Result (List Tracked)
unfolding sell_line
sell_lines sale [] rows = ok rows
sell_lines sale (line ∷ lines) rows = do
  after ← sell_line sale line rows
  sell_lines sale lines after

unfoldable pub total_due_of : List SaleLineRow → ℤ
total_due_of [] = pos 0
total_due_of (l ∷ ls) = l.line_total +ℤ total_due_of ls

unfoldable pub is_advance : PaymentMethod → Bool
is_advance PaymentMethod.advance = true
is_advance _ = false

abbrev pub advance_payments : List SalePayment → List SalePayment
advance_payments = select (λ p. is_advance p.payment.method)

-- At most one ADVANCE payment, which must be good for the sale.
unfoldable pub check_advance :
    Seller → SaleRow → ℤ → List SalePayment → AdvanceDb → Result (Unit {0})
unfolding resolve_advance_for_checkout
check_advance c sale total_due [] db = ok tt
check_advance c sale total_due (p ∷ []) db = do
  raise_if (ltb_ℤ total_due p.payment.amount) validation_error
  resolve_advance_for_checkout (caller_at c sale) p.advance p.payment.amount db
  ok tt
check_advance c sale total_due (p ∷ q ∷ rest) db = err validation_error

unfoldable pub consume_advance : Seller → SaleRow → List SalePayment → AdvanceDb → Result AdvanceDb
unfolding checkout_advance
consume_advance c sale [] db = ok db
consume_advance c sale (p ∷ rest) db =
    checkout_advance (caller_at c sale) sale.id p.advance p.payment.amount db

abbrev pub paid_sale : ℕ → PosSaleActionRequest → PaymentTotals → SaleRow → SaleRow
paid_sale now payload totals sale = record sale {
  status = paid;
  total_due = totals.total_due;
  paid_total = totals.paid_total;
  balance_due = totals.balance_due;
  change_due = totals.change_due;
  checked_out_at = some now;
  receipt_number =
      if truthy payload.receipt_number then payload.receipt_number else sale.receipt_number;
}

unfoldable pub checkout_sale : Seller → PosSaleActionRequest → SaleRow → SaleDb → Result SaleDb
unfolding text_eq lines_of total_due_of is_advance validate_payments check_advance
    check_cash_session sell_lines begin commit consume_advance checkout_cash put_sale truthy
checkout_sale c payload sale db = do
  raise_if (not (text_eq sale.status draft_sale)) business_conflict
  let lines = lines_of sale.id db.lines
  raise_if (is_empty lines) validation_error
  let total_due = total_due_of lines
  totals ← validate_payments (map (λ p. p.payment) payload.payments) total_due
  check_advance c sale total_due (advance_payments payload.payments) db.vouchers
  check_cash_session (caller_at c sale) totals.cash_total db.vouchers.cash
  rows ← sell_lines sale lines (begin db.stock)
  vouchers ← consume_advance c sale (advance_payments payload.payments) db.vouchers
  drawer ←
      checkout_cash (caller_at c sale) sale.id totals.cash_total totals.change_due vouchers.cash
  ok (record db {
    sales = put_sale (paid_sale c.caller.now payload totals sale) db.sales;
    stock = commit rows;
    vouchers = record vouchers { cash = drawer };
  })
