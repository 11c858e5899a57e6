-- ===== src/Tests/Returns.antt =====
-- A sale of three pieces, one of which came back before (app/aris3/services/pos_returns.py).
use aris_cloud.Prelude.{◌+◌, ◌≤◌, refl, ◌≡◌, true, false, List, [], ◌∷◌, arith, none, some}
use aris_cloud.Prelude.Int.{pos, ◌+ℤ◌, ◌-ℤ◌}
use aris_cloud.Prelude.Result.{Result, ok, err}
use aris_cloud.Prelude.Text.{codes}
use aris_cloud.Returns.{
  PosSale, PosSaleLine, PosReturnEvent, refund_items, return_draft, StockItem, ReturnItem, sku_line,
  completed_returned_quantity, returned_in, validate_sale_eligibility, is_finalized_sale_status,
  find_line, times, ReturnQuote, normalize_items, preview_exchanges, refund_total, exchange_total,
  settlement_direction, quote_from_sale,
}
use aris_cloud.Returns.Quantities.{
  requested, quote_from_sale-within_sold, quote_from_sale-duplicates,
}

abbrev sale : PosSale
sale = record { tenant_id = 1; status = codes "paid"; checked_out_at = some 1000 }

abbrev line : PosSaleLine
line = record { id = 4; qty = 3; unit_price = pos 1250 }

abbrev events : List PosReturnEvent
events =
    record { action = refund_items; returned_lines = record { line_id = some 4; qty = 1 } ∷ [] }
    ∷ record { action = return_draft; returned_lines = record { line_id = some 4; qty = 2 } ∷ [] }
    ∷ []

abbrev stock : List StockItem
stock =
    record {
      tenant_id = 1;
      store_id = 2;
      epc = none;
      sku = 6;
      sold = false;
      sale_price = some (pos 4000);
    }
    ∷ []

abbrev item : ReturnItem
item = record { sale_line_id = 4; qty = 2; is_exchange = true }

abbrev no_quote : ReturnQuote
no_quote = record {
  refund_total = pos 0;
  exchange_total = pos 0;
  net_adjustment = pos 0;
  settlement_direction = settlement_direction (pos 0);
  normalized_lines = [];
  exchange_preview = [];
}

abbrev or_none : Result ReturnQuote → ReturnQuote
or_none (ok q) = q
or_none (err e) = no_quote

abbrev quote : ReturnQuote
quote =
    or_none
      (quote_from_sale 2000 2 sale (line ∷ []) events stock (item ∷ []) (sku_line 6 none ∷ []))

quoted :
    quote_from_sale 2000 2 sale (line ∷ []) events stock (item ∷ []) (sku_line 6 none ∷ [])
    ≡ ok quote
unfolding quote_from_sale validate_sale_eligibility is_finalized_sale_status normalize_items
    preview_exchanges refund_total exchange_total settlement_direction find_line
    completed_returned_quantity returned_in times ◌+ℤ◌ ◌-ℤ◌
quoted = refl

customer_pays_the_rest : quote.net_adjustment ≡ pos 1500
unfolding quote_from_sale validate_sale_eligibility is_finalized_sale_status normalize_items
    preview_exchanges refund_total exchange_total settlement_direction find_line
    completed_returned_quantity returned_in times ◌+ℤ◌ ◌-ℤ◌
customer_pays_the_rest = refl

quote_from_sale-within_sold_example :
    requested 4 (item ∷ []) + completed_returned_quantity 4 events ≤ 3
unfolding find_line completed_returned_quantity returned_in
quote_from_sale-within_sold_example =
    quote_from_sale-within_sold 2000 2 sale (line ∷ []) events stock (item ∷ [])
      (sku_line 6 none ∷ []) 4 {line = line} {quote = quote} (refl, tt) refl (ground arith) quoted

quote_from_sale-duplicates_example :
    let twice : ReturnItem = record { sale_line_id = 4; qty = 2; is_exchange = false } in
    (quote : ReturnQuote) × (quote_from_sale 2000 2 sale
        (line ∷ [])
        events
        stock
        (twice ∷ twice ∷ [])
        []
      ≡ ok quote)
    × (quote.refund_total ≡ times 2 (pos 1250) +ℤ (times 2 (pos 1250) +ℤ pos 0))
unfolding validate_sale_eligibility is_finalized_sale_status find_line completed_returned_quantity
    returned_in
quote_from_sale-duplicates_example =
    quote_from_sale-duplicates 2000 2 sale (line ∷ []) events stock 4 2 {line = line} refl refl
      (ground arith)
