-- ===== src/Returns/Drafts.antt =====
-- The life of a return: `create_draft` and `apply_action` of app/aris3/services/pos_returns.py. The
-- rows are those of pos_return_events; numbers and texts of a return are left out.
use aris_cloud.Prelude.{
  ℕ, Bool, true, false, not, ◌&&◌, List, [], ◌∷◌, map, if◌then◌else◌, is_empty, Option, none, some,
  ◌==◌, is_just, or_else,
}
use aris_cloud.Prelude.Int.{ℤ, pos, ◌+ℤ◌, ◌-ℤ◌, leb_ℤ, ltb_ℤ}
use aris_cloud.Prelude.Result.{
  Result, ok, err, ◌>>=◌, ◌>>◌, raise_if, or_raise, validation_error, business_conflict,
  resource_not_found,
}
use aris_cloud.Prelude.Result.{
  store_scope_mismatch, store_scope_required, cross_tenant_access_denied,
}
use aris_cloud.Scope.{TokenData, Store, has_broad_store_role, enforce_store_scope}
use aris_cloud.Returns.{
  PosSale, PosSaleLine, ReturnAction, refund_items, exchange_items, return_draft, return_void,
  return_complete, ReturnedLine, PosReturnEvent, StockItem, ReturnItem, ExchangeLine,
  NormalizedLine, ReturnQuote, validate_sale_eligibility, quote_from_sale,
}

pub record ReturnRow : Type 0 where
  pub id : ℕ
  pub tenant_id : ℕ
  pub store_id : ℕ
  pub sale_id : ℕ
  pub action : ReturnAction
  pub returned_lines : List ReturnedLine
  pub quoted_lines : List NormalizedLine
  pub net_adjustment : ℤ
  pub exchange_total : ℤ
  pub settlement_payments : List ℤ

-- `_resolve_store_id`, which has an error of its own for broad roles.
unfoldable pub resolve_return_store : TokenData → Option ℕ → Result ℕ
resolve_return_store token requested = elim token.store_id [
  | some locked ↦
      if has_broad_store_role token then ok (or_else requested locked) else elim requested [
        | none ↦ ok locked
        | some r ↦ if r == locked then ok locked else err store_scope_mismatch
      ]
  | none ↦ elim requested [
    | some r ↦ ok r
    | none ↦ if has_broad_store_role token then err validation_error else err store_scope_required
  ]
]

-- A sale's row, with its id and store, and its lines.
pub record SaleRow : Type 0 where
  pub id : ℕ
  pub store_id : ℕ
  pub sale : PosSale
  pub lines : List PosSaleLine

-- `repo.get_return_events`
unfoldable pub get_return_events : ℕ → List ReturnRow → List PosReturnEvent
get_return_events sale_id [] = []
get_return_events sale_id (r ∷ rs) =
    let rest = get_return_events sale_id rs in
    if r.sale_id == sale_id
    then record { action = r.action; returned_lines = r.returned_lines } ∷ rest
    else rest

abbrev pub draft_row : ℕ → SaleRow → ℕ → ReturnQuote → ReturnRow
draft_row new_id sale store quote = record {
  id = new_id;
  tenant_id = sale.sale.tenant_id;
  store_id = store;
  sale_id = sale.id;
  action = return_draft;
  returned_lines = [];
  quoted_lines = quote.normalized_lines;
  net_adjustment = quote.net_adjustment;
  exchange_total = quote.exchange_total;
  settlement_payments = [];
}

-- `create_draft`, for the sale that the id of the request names.
unfoldable pub create_draft :
    TokenData
    → List Store
    → ℕ
    → ℕ
    → Option ℕ
    → Option SaleRow
    → List StockItem
    → List ReturnItem
    → List ExchangeLine
    → List ReturnRow
    → Result (List ReturnRow)
unfolding resolve_return_store get_return_events
create_draft token stores now new_id requested found stock items exchange_lines rows = do
  store ← resolve_return_store token requested
  enforce_store_scope token (some store) stores true
  sale ← or_raise found resource_not_found
  raise_if (not (is_just token.tenant_id sale.sale.tenant_id)) cross_tenant_access_denied
  raise_if (not (sale.store_id == store)) store_scope_mismatch
  validate_sale_eligibility now sale.sale
  quote ←
      quote_from_sale now store sale.sale sale.lines (get_return_events sale.id rows) stock items
        exchange_lines
  ok (draft_row new_id sale store quote ∷ rows)

unfoldable pub find_return : ℕ → List ReturnRow → Option ReturnRow
find_return id [] = none
find_return id (r ∷ rs) = if r.id == id then some r else find_return id rs

unfoldable pub put_return : ReturnRow → List ReturnRow → List ReturnRow
put_return x [] = []
put_return x (r ∷ rs) = let rest = put_return x rs in if r.id == x.id then x ∷ rs else r ∷ rest

abbrev pub is_draft : ReturnAction → Bool
is_draft return_draft = true
is_draft _ = false

-- VOID, or COMPLETE with the amounts of its payments.
pub data DraftAction : Type 0 where
  void : DraftAction
  complete : List ℤ → DraftAction

unfoldable pub sum_of : List ℤ → ℤ
sum_of [] = pos 0
sum_of (x ∷ xs) = x +ℤ sum_of xs

abbrev pub is_zero : ℤ → Bool
is_zero x = leb_ℤ x (pos 0) && leb_ℤ (pos 0) x

unfoldable pub check_settlement : ℤ → List ℤ → Result (Unit {0})
unfolding sum_of
check_settlement net payments = do
  raise_if (not (is_zero net) && is_empty payments) validation_error
  raise_if (ltb_ℤ (pos 0) net && not (is_zero (sum_of payments -ℤ net))) validation_error
  raise_if (ltb_ℤ net (pos 0) && not (is_zero (sum_of payments +ℤ net))) validation_error

abbrev pub to_returned : NormalizedLine → ReturnedLine
to_returned l = record { line_id = some l.sale_line_id; qty = l.qty }

-- The event that a completed return adds to its sale.
abbrev pub tracked_row : ℕ → ReturnRow → ReturnRow
tracked_row new_id r = record r {
  id = new_id;
  action = if ltb_ℤ (pos 0) r.exchange_total then exchange_items else refund_items;
  returned_lines = map to_returned r.quoted_lines;
  quoted_lines = [];
  settlement_payments = [];
}

unfoldable pub act_on_draft : ℕ → DraftAction → ReturnRow → List ReturnRow → Result (List ReturnRow)
unfolding check_settlement put_return
act_on_draft new_id void r rows = ok (put_return (record r { action = return_void }) rows)
act_on_draft new_id (complete payments) r rows = do
  check_settlement r.net_adjustment payments
  ok (
      tracked_row new_id r
      ∷ put_return (record r { action = return_complete; settlement_payments = payments }) rows)

unfoldable pub apply_action :
    TokenData
    → List Store
    → ℕ
    → ℕ
    → Option ℕ
    → DraftAction
    → List ReturnRow
    → Result (List ReturnRow)
unfolding resolve_return_store find_return act_on_draft
apply_action token stores new_id id requested action rows = do
  store ← resolve_return_store token requested
  enforce_store_scope token (some store) stores true
  r ← or_raise (find_return id rows) resource_not_found
  raise_if (not (is_just token.tenant_id r.tenant_id)) cross_tenant_access_denied
  raise_if (not (r.store_id == store)) store_scope_mismatch
  raise_if (not (is_draft r.action)) business_conflict
  act_on_draft new_id action r rows
