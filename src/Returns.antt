-- ===== src/Returns.antt =====
-- The quote of a return: `_quote_from_sale` of app/aris3/services/pos_returns.py with what it calls,
-- and the stock filters of app/aris3/services/stock_rules.py. Prices are in cents, with which
-- `quantize` does nothing.
pub mod Quantities
pub mod Drafts
pub mod Completion
use aris_cloud.Prelude.{
  ℕ, suc, ◌+◌, ◌-◌, ◌≤◌, ◌<◌, ◌↔◌, ◌∙◌, ap, inr, inl, sym, Bool-cases, refl, ◌≡◌, ◌≢◌, Bool, true,
  false, not, ◌&&◌, ◌||◌, List, [], ◌∷◌, ◌++◌, map, if◌then◌else◌, is_empty, arith, All, any,
  select, first, length, ◌⊎◌, Option, none, some, ◌==◌, ltb, leb, max, is_some, is_just, or_else,
  first_some, ==_iff, Option-cases,
}
use aris_cloud.Prelude.Int.{
  ℤ, pos, negsuc, ◌+ℤ◌, ◌-ℤ◌, ◌≤ℤ◌, leb_ℤ, ltb_ℤ, int_laws, +ℤ_parts, -ℤ_parts,
}
use aris_cloud.Prelude.Result.{
  Result, ok, err, ◌>>=◌, ◌>>◌, raise_if, or_raise, Ensures, Ensures-bind, Ensures-ok, Ensures-if,
  Ensures-raise_if, AppError, validation_error, business_conflict, resource_not_found,
  permission_denied, idempotency_key_required, idempotency_request_in_progress,
  idempotency_key_reused_with_different_payload,
}
use aris_cloud.Prelude.{◌*◌}
use aris_cloud.Prelude.Text.{Text, codes, upper, member}

pub record PosSale : Type 0 where
  pub tenant_id : ℕ
  pub status : Text
  pub checked_out_at : Option ℕ

pub record PosSaleLine : Type 0 where
  pub id : ℕ
  pub qty : ℕ
  pub unit_price : ℤ

pub data ReturnAction : Type 0 where
  refund_items exchange_items return_draft return_void return_complete : ReturnAction

-- An entry of `returned_lines` in an event's payload; without a line id it is `none`.
pub record ReturnedLine : Type 0 where
  pub line_id : Option ℕ
  pub qty : ℕ

pub record PosReturnEvent : Type 0 where
  pub action : ReturnAction
  pub returned_lines : List ReturnedLine

pub record StockItem : Type 0 where
  pub tenant_id : ℕ
  pub store_id : ℕ
  pub epc : Option ℕ
  pub sku : ℕ
  pub sold : Bool
  pub sale_price : Option ℤ

pub record ReturnItem : Type 0 where
  pub sale_line_id : ℕ
  pub qty : ℕ
  pub is_exchange : Bool

pub data ExchangeLine : Type 0 where
  epc_line : ℕ → Option ℕ → ExchangeLine
  sku_line : ℕ → Option ℕ → ExchangeLine

-- `FINALIZED_SALE_STATUSES`
abbrev pub finalized_sale_statuses : List Text
finalized_sale_statuses = codes "PAID" ∷ codes "COMPLETED" ∷ codes "CLOSED" ∷ codes "FINALIZED" ∷ []

unfoldable pub is_finalized_sale_status : Text → Bool
unfolding upper member
is_finalized_sale_status status = member (upper status) finalized_sale_statuses

-- `TRACKED_SALE_ACTIONS`
abbrev pub is_tracked : ReturnAction → Bool
is_tracked refund_items = true
is_tracked exchange_items = true
is_tracked _ = false

-- `_completed_returned_quantities`, read at one line.
unfoldable pub returned_in : ℕ → List ReturnedLine → ℕ
returned_in id [] = 0
returned_in id (r ∷ rs) =
    let rest = returned_in id rs in if is_just r.line_id id then r.qty + rest else rest

unfoldable pub completed_returned_quantity : ℕ → List PosReturnEvent → ℕ
unfolding returned_in
completed_returned_quantity id [] = 0
completed_returned_quantity id (e ∷ es) =
    let rest = completed_returned_quantity id es in
    if is_tracked e.action then returned_in id e.returned_lines + rest else rest

-- Seven days, in seconds.
abbrev pub return_window : ℕ
return_window = 604800

unfoldable pub validate_sale_eligibility : ℕ → PosSale → Result (Unit {0})
unfolding is_finalized_sale_status
validate_sale_eligibility now sale = do
  raise_if (not (is_finalized_sale_status sale.status)) validation_error
  at ← or_raise sale.checked_out_at validation_error
  raise_if (ltb (at + return_window) now) business_conflict

unfoldable pub find_line : ℕ → List PosSaleLine → Option PosSaleLine
find_line id [] = none
find_line id (l ∷ ls) = if l.id == id then some l else find_line id ls

-- A price times a quantity.
unfoldable pub times : ℕ → ℤ → ℤ
times q (pos n) = pos (q * n)
times q (negsuc n) = pos 0 -ℤ pos (q * suc n)

pub record NormalizedLine : Type 0 where
  pub sale_line_id : ℕ
  pub is_exchange : Bool
  pub qty : ℕ
  pub unit_price : ℤ
  pub line_total : ℤ

abbrev pub returnable_qty : List PosReturnEvent → PosSaleLine → ℕ
returnable_qty events line = line.qty - completed_returned_quantity line.id events

-- The body of the loop over `request.items`.
unfoldable pub normalize_item :
    List PosSaleLine → List PosReturnEvent → ReturnItem → Result NormalizedLine
unfolding find_line completed_returned_quantity
normalize_item lines events item = do
  line ← or_raise (find_line item.sale_line_id lines) validation_error
  raise_if (ltb (returnable_qty events line) item.qty) business_conflict
  ok (record {
    sale_line_id = item.sale_line_id;
    is_exchange = item.is_exchange;
    qty = item.qty;
    unit_price = line.unit_price;
    line_total = times item.qty line.unit_price;
  })

unfoldable pub normalize_items :
    List PosSaleLine → List PosReturnEvent → List ReturnItem → Result (List NormalizedLine)
unfolding normalize_item
normalize_items lines events [] = ok []
normalize_items lines events (item ∷ items) = do
  line ← normalize_item lines events item
  rest ← normalize_items lines events items
  ok (line ∷ rest)

-- `sale_epc_filters` and `sale_sku_filters`
abbrev pub sale_epc_filters : ℕ → ℕ → ℕ → StockItem → Bool
sale_epc_filters t s epc x = x.tenant_id == t && x.store_id == s && is_just x.epc epc && not x.sold

abbrev pub sale_sku_filters : ℕ → ℕ → ℕ → StockItem → Bool
sale_sku_filters t s sku x =
    x.tenant_id == t && x.store_id == s && x.sku == sku && not (is_some x.epc) && not x.sold

pub record ExchangePreviewLine : Type 0 where
  pub line : ExchangeLine
  pub qty : ℕ
  pub unit_price : ℤ
  pub line_total : ℤ

-- `int(exchange_line.qty or 1)`
abbrev pub qty_or_one : Option ℕ → ℕ
qty_or_one none = 1
qty_or_one (some n) = if n == 0 then 1 else n

abbrev pub preview_line : ExchangeLine → ℕ → StockItem → ExchangePreviewLine
preview_line line qty stock = record {
  line = line;
  qty = qty;
  unit_price = or_else stock.sale_price (pos 0);
  line_total = times qty (or_else stock.sale_price (pos 0));
}

-- The body of the loop over `request.exchange_lines`.
unfoldable pub preview_exchange : List StockItem → ℕ → ℕ → ExchangeLine → Result ExchangePreviewLine
preview_exchange stock t s (epc_line epc qty) = do
  item ← or_raise (first (select (sale_epc_filters t s epc) stock)) validation_error
  ok (preview_line (epc_line epc qty) (qty_or_one qty) item)
preview_exchange stock t s (sku_line sku qty) = do
  raise_if (ltb (length (select (sale_sku_filters t s sku) stock)) (qty_or_one qty))
      validation_error
  item ← or_raise (first (select (sale_sku_filters t s sku) stock)) validation_error
  ok (preview_line (sku_line sku qty) (qty_or_one qty) item)

unfoldable pub preview_exchanges :
    List StockItem → ℕ → ℕ → List ExchangeLine → Result (List ExchangePreviewLine)
unfolding preview_exchange
preview_exchanges stock t s [] = ok []
preview_exchanges stock t s (x ∷ xs) = do
  line ← preview_exchange stock t s x
  rest ← preview_exchanges stock t s xs
  ok (line ∷ rest)

-- `refund_total` and `exchange_total`, as the loops add them up.
unfoldable pub refund_total : List NormalizedLine → ℤ
refund_total [] = pos 0
refund_total (l ∷ ls) = l.line_total +ℤ refund_total ls

unfoldable pub exchange_total : List ExchangePreviewLine → ℤ
exchange_total [] = pos 0
exchange_total (l ∷ ls) = l.line_total +ℤ exchange_total ls

pub data SettlementDirection : Type 0 where
  customer_pays store_refunds no_settlement : SettlementDirection

unfoldable pub settlement_direction : ℤ → SettlementDirection
settlement_direction net =
    if ltb_ℤ (pos 0) net
    then customer_pays
    else if ltb_ℤ net (pos 0)
    then store_refunds
    else no_settlement

pub record ReturnQuote : Type 0 where
  pub refund_total : ℤ
  pub exchange_total : ℤ
  pub net_adjustment : ℤ
  pub settlement_direction : SettlementDirection
  pub normalized_lines : List NormalizedLine
  pub exchange_preview : List ExchangePreviewLine

unfoldable pub quote_from_sale :
    ℕ
    → ℕ
    → PosSale
    → List PosSaleLine
    → List PosReturnEvent
    → List StockItem
    → List ReturnItem
    → List ExchangeLine
    → Result ReturnQuote
unfolding validate_sale_eligibility normalize_items preview_exchanges refund_total exchange_total
    settlement_direction
quote_from_sale now store_id sale lines events stock items exchange_lines = do
  validate_sale_eligibility now sale
  normalized ← normalize_items lines events items
  preview ← preview_exchanges stock sale.tenant_id store_id exchange_lines
  raise_if (any (λ item. item.is_exchange) items && is_empty preview) validation_error
  let net = exchange_total preview -ℤ refund_total normalized
  ok (record {
    refund_total = refund_total normalized;
    exchange_total = exchange_total preview;
    net_adjustment = net;
    settlement_direction = settlement_direction net;
    normalized_lines = normalized;
    exchange_preview = preview;
  })
