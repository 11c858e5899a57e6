-- ===== src/Sales/Refund.antt =====
-- The action REFUND_ITEMS of `sale_action` in app/aris3/routers/pos_sales.py.
use aris_cloud.Prelude.{
  ℕ, suc, ◌-◌, Bool, true, false, not, ◌&&◌, List, [], ◌∷◌, ◌++◌, map, if◌then◌else◌, is_empty,
  select, none, some, ◌==◌, ltb, is_just, or_else,
}
use aris_cloud.Prelude.Int.{ℤ, pos, ◌+ℤ◌, ◌-ℤ◌, leb_ℤ}
use aris_cloud.Prelude.Result.{
  Result, ok, ◌>>=◌, ◌>>◌, raise_if, or_raise, validation_error, permission_denied,
}
use aris_cloud.Access.{evaluate_permission}
use aris_cloud.Cash.Flow.{refund_cash}
use aris_cloud.Prelude.Text.{codes, text_eq, upper}
use aris_cloud.Payments.{PosPaymentCreate, PaymentMethod}
use aris_cloud.Returns.{ReturnedLine, PosReturnEvent, completed_returned_quantity, times}
use aris_cloud.Transfers.{StockItem, is_epc}
use aris_cloud.Transfers.Lines.{truthy}
use aris_cloud.Transfers.Stock.{commit, begin, Tracked, change_rows, write, same_text}
use aris_cloud.Returns.{refund_items}
use aris_cloud.Sales.{
  paid, SaleDb, lines_of, SaleReturnEvent, events_of, caller_at, check_cash_session, SaleRow,
  SaleLineRow, SaleReturnItem, LabelStrategy, assign_new_epc, to_pending, Seller,
  PosSaleActionRequest, sold, find_sale_line,
}
use aris_cloud.Sales.Policy.{item_exceptions, check_refund_payments, require_manager_override}

-- What an item adds to the subtotal.
unfoldable pub refund_line : List SaleLineRow → List PosReturnEvent → SaleReturnItem → Result ℤ
unfolding find_sale_line completed_returned_quantity is_epc times
refund_line lines events item = do
  line ← or_raise (find_sale_line item.line_id lines) validation_error
  raise_if (ltb item.qty 1) validation_error
  raise_if (ltb (line.qty - completed_returned_quantity item.line_id events) item.qty)
      validation_error
  raise_if (is_epc line.line_type && not (item.qty == 1)) validation_error
  ok (times item.qty line.unit_price)

unfoldable pub refund_subtotal :
    List SaleLineRow → List PosReturnEvent → List SaleReturnItem → Result ℤ
unfolding refund_line
refund_subtotal lines events [] = ok (pos 0)
refund_subtotal lines events (item ∷ items) = do
  amount ← refund_line lines events item
  rest ← refund_subtotal lines events items
  ok (amount +ℤ rest)

unfoldable pub sum_amounts : List PosPaymentCreate → ℤ
sum_amounts [] = pos 0
sum_amounts (p ∷ ps) = p.amount +ℤ sum_amounts ps

unfoldable pub is_cash : PaymentMethod → Bool
is_cash PaymentMethod.cash = true
is_cash _ = false

abbrev pub cash_of : List PosPaymentCreate → ℤ
cash_of ps = sum_amounts (select (λ p. is_cash p.method) ps)

-- The units of a line that were sold.
unfoldable pub sold_epc : SaleRow → SaleLineRow → StockItem → Bool
unfolding same_text
sold_epc sale line x =
    x.tenant_id == sale.tenant_id
    && is_just x.store_id sale.store_id
    && same_text x.epc line.epc
    && same_text x.status sold
    && same_text x.location_code line.location_code
    && same_text x.pool line.pool

unfoldable pub sold_sku : SaleRow → SaleLineRow → StockItem → Bool
unfolding same_text
sold_sku sale line x =
    x.tenant_id == sale.tenant_id
    && is_just x.store_id sale.store_id
    && same_text x.sku line.sku
    && same_text x.status sold
    && same_text x.location_code line.location_code
    && same_text x.pool line.pool

abbrev pub as_pending : StockItem → StockItem
as_pending x = record x { status = some (codes "PENDING"); location_is_vendible = true }

abbrev pub as_rfid : StockItem → StockItem
as_rfid x = record x { status = some (codes "RFID"); location_is_vendible = true }

-- What becomes of a unit whose label cannot be used again, by the strategy, and of one whose label can.
unfoldable pub take_back : Bool → LabelStrategy → StockItem → StockItem
take_back true assign_new_epc x = record x {
  status = some (codes "PENDING");
  location_is_vendible = false;
}
take_back true to_pending x = record (as_pending x) { epc = none }
take_back false strategy x = as_rfid x

abbrev pub is_non_reusable : SaleLineRow → Bool
is_non_reusable line = text_eq (upper (or_else line.status [])) (codes "NON_REUSABLE_LABEL")

-- Whether a unit gets a row of its own under a new label.
unfoldable pub is_relabeled : LabelStrategy → SaleLineRow → Bool
unfolding is_epc text_eq upper
is_relabeled assign_new_epc line = is_epc line.line_type && is_non_reusable line
is_relabeled to_pending line = false

abbrev pub relabeled : Seller → SaleRow → SaleLineRow → ℕ → StockItem
relabeled c sale line k = record {
  id = c.new_stock_id k;
  tenant_id = sale.tenant_id;
  store_id = some sale.store_id;
  sku = line.sku;
  description = line.description;
  var1_value = line.var1_value;
  var2_value = line.var2_value;
  epc = if truthy line.epc then some (c.new_epc k) else none;
  location_code = line.location_code;
  pool = line.pool;
  status = some (codes "RFID");
  location_is_vendible = true;
}

-- The row that an item adds, if its unit gets a new label.
unfoldable pub new_unit : Seller → SaleRow → SaleLineRow → ℕ → List StockItem
unfolding is_relabeled truthy
new_unit c sale line k =
    if is_relabeled c.policy.non_reusable_label_strategy line
    then relabeled c sale line k ∷ []
    else []

-- The units of an item come back.
unfoldable pub return_units :
    LabelStrategy → SaleRow → SaleLineRow → SaleReturnItem → List Tracked → Result (List Tracked)
unfolding is_epc change_rows sold_epc sold_sku take_back text_eq upper
return_units strategy sale line item rows =
    if is_epc line.line_type
    then change_rows (write (take_back (is_non_reusable line) strategy)) validation_error
        (sold_epc sale line) 1 rows
    else change_rows (write as_pending) validation_error (sold_sku sale line) item.qty rows

-- The rows so far, and those that were added, which no select finds before the flush.
pub record Returned : Type 0 where
  pub rows : List Tracked
  pub added : List StockItem

-- The loop over the items under the nested transaction, from the k-th item on.
unfoldable pub return_each :
    Seller → SaleRow → List SaleLineRow → ℕ → List SaleReturnItem → List Tracked → Result Returned
unfolding return_units find_sale_line new_unit
return_each c sale lines k [] rows = ok (record { rows = rows; added = [] })
return_each c sale lines k (item ∷ items) rows = do
  line ← or_raise (find_sale_line item.line_id lines) validation_error
  after ← return_units c.policy.non_reusable_label_strategy sale line item rows
  rest ← return_each c sale lines (suc k) items after
  ok (record rest { added = new_unit c sale line k ++ rest.added })

abbrev pub eq_ℤ : ℤ → ℤ → Bool
eq_ℤ a b = leb_ℤ a b && leb_ℤ b a

abbrev pub returned_line : SaleReturnItem → ReturnedLine
returned_line i = record { line_id = some i.line_id; qty = i.qty }

abbrev pub refund_event : SaleRow → List SaleReturnItem → ℤ → ℤ → SaleReturnEvent
refund_event sale items subtotal fee = record {
  sale_id = sale.id;
  event = record { action = refund_items; returned_lines = map returned_line items };
  refund_subtotal = subtotal;
  restocking_fee = fee;
  refund_total = subtotal -ℤ fee;
  exchange_total = pos 0;
  net_adjustment = fee -ℤ subtotal;
}

-- What is asked before anything is written; the subtotal of the items.
unfoldable pub check_refund : Seller → PosSaleActionRequest → SaleRow → SaleDb → Result ℤ
unfolding evaluate_permission text_eq check_refund_payments require_manager_override item_exceptions
    refund_subtotal lines_of
check_refund c payload sale db = do
  raise_if
      (not
        (evaluate_permission c.access (codes "POS_SALE_REFUND") c.context (some c.token)).allowed)
      permission_denied
  raise_if (not (text_eq sale.status paid)) validation_error
  raise_if (is_empty payload.return_items) validation_error
  raise_if (is_empty payload.refund_payments) validation_error
  more ← check_refund_payments c.policy payload.refund_payments
  require_manager_override c.role c.policy
      (item_exceptions c.caller.now c.policy sale payload ++ more) payload.manager_override
  refund_subtotal (lines_of sale.id db.lines) (events_of sale.id db.events) payload.return_items

unfoldable pub refund_sale_items : Seller → PosSaleActionRequest → SaleRow → SaleDb → Result SaleDb
unfolding check_refund lines_of sum_amounts is_cash check_cash_session return_each begin commit
    refund_cash
refund_sale_items c payload sale db = do
  subtotal ← check_refund c payload sale db
  let fee = c.policy.restocking_fee_of subtotal
  raise_if (not (eq_ℤ (sum_amounts payload.refund_payments) (subtotal -ℤ fee))) validation_error
  let cash = cash_of payload.refund_payments
  let lines = lines_of sale.id db.lines
  let items = payload.return_items
  check_cash_session (caller_at c sale) cash db.vouchers.cash
  returned ← return_each c sale lines 0 items (begin db.stock)
  drawer ← refund_cash (caller_at c sale) sale.id cash db.vouchers.cash
  ok (record db {
    stock = commit returned.rows ++ returned.added;
    events = refund_event sale items subtotal fee ∷ db.events;
    vouchers = record db.vouchers { cash = drawer };
  })
