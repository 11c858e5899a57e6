-- ===== src/Returns/Quantities.antt =====
-- The quantities of a quote against those of the sale.
use aris_cloud.Prelude.{
  ℕ, ◌+◌, ◌≤◌, refl, ◌≡◌, Bool, false, ◌&&◌, List, [], ◌∷◌, if◌then◌else◌, is_empty, arith, any,
  some, ◌==◌,
}
use aris_cloud.Prelude.Int.{pos, ◌+ℤ◌, ◌-ℤ◌}
use aris_cloud.Prelude.Result.{ok, raise_if, Ensures, Ensures-bind, Ensures-ok, validation_error}
use aris_cloud.Returns.{
  PosSale, PosSaleLine, PosReturnEvent, StockItem, ReturnItem, ExchangeLine,
  completed_returned_quantity, validate_sale_eligibility, find_line, times, NormalizedLine,
  returnable_qty, normalize_item, normalize_items, preview_exchanges, refund_total, exchange_total,
  ReturnQuote, settlement_direction, quote_from_sale,
}

-- What the items of a request ask of a line.
unfoldable pub requested : ℕ → List ReturnItem → ℕ
requested id [] = 0
requested id (item ∷ items) =
    let rest = requested id items in if item.sale_line_id == id then item.qty + rest else rest

abbrev pub has_item : ℕ → List ReturnItem → Bool
has_item id items = any (λ item. item.sale_line_id == id) items

-- No two items name one line.
abbrev pub AreDistinct : List ReturnItem → Type 0
AreDistinct [] = Unit
AreDistinct (item ∷ items) = (has_item item.sale_line_id items ≡ false) × AreDistinct items

find_line_id :
    (id : ℕ) (lines : List PosSaleLine) {line : PosSaleLine}
    → find_line id lines ≡ some line
    → line.id ≡ id
unfolding find_line
find_line_id id [] {line} h = cc
find_line_id id (l ∷ lines) {line} h = ground (arith, find_line_id id lines {line = line})

requested_absent :
    (id : ℕ) (items : List ReturnItem) → has_item id items ≡ false → requested id items ≡ 0
unfolding requested
requested_absent id [] h = refl
requested_absent id (item ∷ items) h = ground (arith, requested_absent id items)

item_within :
    (lines : List PosSaleLine) (events : List PosReturnEvent) (item : ReturnItem) (id : ℕ)
    {line : PosSaleLine} {l : NormalizedLine}
    → find_line id lines ≡ some line
    → normalize_item lines events item ≡ ok l
    → item.sale_line_id ≡ id
    → item.qty ≤ returnable_qty events line
unfolding normalize_item
item_within lines events item id {line} {l} f e same = ground arith

module _ (lines : List PosSaleLine) (events : List PosReturnEvent) (id : ℕ) (line : PosSaleLine)
    (found : find_line id lines ≡ some line) where
  abbrev IsWithin : List ReturnItem → Type 0
  IsWithin items = requested id items ≤ returnable_qty events line

  normalize_items-IsWithin :
      (items : List ReturnItem)
      → AreDistinct items
      → Ensures (λ _. IsWithin items) (normalize_items lines events items)
  unfolding requested normalize_items
  normalize_items-IsWithin [] d = ground arith
  normalize_items-IsWithin (item ∷ items) d =
      let P : List NormalizedLine → Type 0 = λ _. IsWithin (item ∷ items) in
      Ensures-bind P (normalize_item lines events item) _ λ l e.
        Ensures-bind P (normalize_items lines events items) _ λ rest e'.
          let later =
            Ensures-ok (λ _. IsWithin items) (normalize_items lines events items)
              (normalize_items-IsWithin items d.1) e' in
          ground (
            arith,
            later,
            item_within lines events item id {line = line} {l = l} found e,
            requested_absent id items,
          )

-- A quote whose items name each line at most once keeps within what was sold: for each line of the
-- sale of which no more was returned than sold, what is asked and what was returned before do not
-- exceed the quantity sold.
pub quote_from_sale-within_sold :
    (now store_id : ℕ) (sale : PosSale) (lines : List PosSaleLine) (events : List PosReturnEvent)
    (stock : List StockItem) (items : List ReturnItem) (exchange_lines : List ExchangeLine) (id : ℕ)
    {line : PosSaleLine} {quote : ReturnQuote}
    → AreDistinct items
    → find_line id lines ≡ some line
    → completed_returned_quantity id events ≤ line.qty
    → quote_from_sale now store_id sale lines events stock items exchange_lines ≡ ok quote
    → requested id items + completed_returned_quantity id events ≤ line.qty
unfolding quote_from_sale
quote_from_sale-within_sold now store_id sale lines events stock items exchange_lines id {line}
      {quote} d f before h =
    let P : ReturnQuote → Type 0 = λ _. requested id items ≤ returnable_qty events line in
    let within = Ensures-bind P (validate_sale_eligibility now sale) _ λ _ _.
      Ensures-bind P (normalize_items lines events items) _ λ normalized e.
        let own =
          Ensures-ok (λ _. IsWithin lines events id line f items)
            (normalize_items lines events items)
            (normalize_items-IsWithin lines events id line f items d) e in
        Ensures-bind P (preview_exchanges stock sale.tenant_id store_id exchange_lines) _
          λ preview _.
            Ensures-bind P
              (raise_if (any (λ item. item.is_exchange) items && is_empty preview) validation_error)
              _ λ _ _. own in
    let own =
      Ensures-ok P (quote_from_sale now store_id sale lines events stock items exchange_lines)
        within h in
    ground (arith, own, before, find_line_id id lines {line = line} f)

item_accepted :
    (lines : List PosSaleLine) (events : List PosReturnEvent) (id q : ℕ) {line : PosSaleLine}
    → find_line id lines ≡ some line
    → q + completed_returned_quantity id events ≤ line.qty
    → normalize_item lines events (record { sale_line_id = id; qty = q; is_exchange = false })
      ≡ ok (record {
        sale_line_id = id;
        is_exchange = false;
        qty = q;
        unit_price = line.unit_price;
        line_total = times q line.unit_price;
      })
unfolding normalize_item
item_accepted lines events id q {line} found within =
    ground (arith, find_line_id id lines {line = line} found)

-- Two items that name one line are tested apart: for a sale that may be returned, a quantity that may
-- be returned once is quoted twice over.
pub quote_from_sale-duplicates :
    (now store_id : ℕ) (sale : PosSale) (lines : List PosSaleLine) (events : List PosReturnEvent)
    (stock : List StockItem) (id q : ℕ) {line : PosSaleLine}
    → validate_sale_eligibility now sale ≡ ok tt
    → find_line id lines ≡ some line
    → q + completed_returned_quantity id events ≤ line.qty
    → let item : ReturnItem = record { sale_line_id = id; qty = q; is_exchange = false } in
      (quote : ReturnQuote) × (quote_from_sale now store_id sale lines events stock
          (item ∷ item ∷ [])
          []
        ≡ ok quote)
      × (quote.refund_total ≡ times q line.unit_price +ℤ (times q line.unit_price +ℤ pos 0))
unfolding quote_from_sale normalize_items normalize_item preview_exchanges refund_total
    exchange_total
quote_from_sale-duplicates now store_id sale lines events stock id q {line} eligible found within =
    let price = times q line.unit_price in
    let l : NormalizedLine = record {
      sale_line_id = id;
      is_exchange = false;
      qty = q;
      unit_price = line.unit_price;
      line_total = price;
    } in
    let total = price +ℤ (price +ℤ pos 0) in
    let quote : ReturnQuote = record {
      refund_total = total;
      exchange_total = pos 0;
      net_adjustment = pos 0 -ℤ total;
      settlement_direction = settlement_direction (pos 0 -ℤ total);
      normalized_lines = l ∷ l ∷ [];
      exchange_preview = [];
    } in
    let item : ReturnItem = record { sale_line_id = id; qty = q; is_exchange = false } in
    let accepted = item_accepted lines events id q found within in
    (quote, rw (eligible, accepted) refl, refl)
