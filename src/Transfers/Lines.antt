-- ===== src/Transfers/Lines.antt =====
-- The checks of transfer lines against the stock in app/aris3/routers/transfers.py.
use aris_cloud.Prelude.{
  ℕ, Bool, false, not, ◌&&◌, ◌||◌, List, [], ◌∷◌, if◌then◌else◌, is_empty, any, first, length,
  Option, none, some, ◌==◌, ltb, is_some, is_just, or_else,
}
use aris_cloud.Prelude.Result.{
  Result, ok, ◌>>=◌, ◌>>◌, raise_if, or_raise, validation_error, business_conflict,
}
use aris_cloud.Prelude.Text.{Text, codes, member, strip}
use aris_cloud.Transfers.{
  StockItem, Transfer, TransferLine, TransferLineSnapshot, TransferLineCreate, TransferDb, is_epc,
  is_active, is_draft,
}
use aris_cloud.Transfers.Stock.{
  Tracked, matching, change_first, write, same_text, allowed_status, transfer_sku_filters,
}

-- A text that `if text` takes: neither missing nor empty.
unfoldable pub truthy : Option Text → Bool
truthy none = false
truthy (some t) = not (is_empty t)

-- `expected or given`
abbrev pub text_or : Option Text → Option Text → Option Text
text_or s t = if truthy s then s else t

validate_epc_snapshot : TransferLineCreate → Result (Unit {0})
unfolding truthy
validate_epc_snapshot line = do
  raise_if (not (line.qty == 1)) validation_error
  raise_if (not (truthy line.snapshot.epc)) validation_error

validate_sku_snapshot : TransferLineCreate → Result (Unit {0})
unfolding truthy allowed_status
validate_sku_snapshot line = do
  raise_if (truthy line.snapshot.epc) validation_error
  raise_if (not (truthy line.snapshot.sku)) validation_error
  raise_if (truthy line.snapshot.status && not (allowed_status line.snapshot.status))
      validation_error

unfoldable pub validate_transfer_snapshot : TransferLineCreate → Result (Unit {0})
unfolding validate_epc_snapshot validate_sku_snapshot truthy is_epc
validate_transfer_snapshot line = do
  raise_if (ltb line.qty 1) validation_error
  if is_epc line.line_type then validate_epc_snapshot line else validate_sku_snapshot line
  raise_if (not (truthy line.snapshot.location_code) || not (truthy line.snapshot.pool))
      validation_error

-- The conditions of `_get_transfer_conflict_for_epc` on a joined transfer, the draft of another
-- store being passed over.
unfoldable pub reserves : ℕ → ℕ → Option ℕ → Transfer → Bool
unfolding is_active is_draft
reserves tenant current_store exclude t =
    t.tenant_id == tenant
    && is_active t.status
    && not (is_just exclude t.id)
    && not (is_draft t.status && not (t.origin_store_id == current_store))

-- `_get_transfer_conflict_for_epc`: the details of the transfer that is in the way only go into the
-- error, so that there is one is all that is returned.
unfoldable pub get_transfer_conflict_for_epc : ℕ → Option Text → ℕ → Option ℕ → TransferDb → Bool
unfolding reserves same_text
get_transfer_conflict_for_epc tenant epc current_store exclude db =
    any
      (λ l.
        l.tenant_id == tenant
        && same_text l.snapshot.epc epc
        && any (λ t. t.id == l.transfer_id && reserves tenant current_store exclude t) db.transfers)
      db.lines

abbrev pub epc_row : ℕ → Option Text → StockItem → Bool
epc_row tenant epc x = x.tenant_id == tenant && same_text x.epc epc

abbrev stale_store : ℕ → Option ℕ → Bool
stale_store origin store = is_some store && not (is_just store origin)

-- The select names the column, so it reads the stored row.
unfoldable pub assert_draft_line_not_stale : ℕ → ℕ → Option Text → List Tracked → Result (Unit {0})
unfolding matching same_text
assert_draft_line_not_stale tenant origin epc rows =
    elim (first (matching (epc_row tenant epc) rows)) [
      | none ↦ ok tt
      | some r ↦ raise_if (stale_store origin r.stored.store_id) business_conflict
    ]

-- A row without a store is taken for one of the origin.
abbrev pub settle : ℕ → StockItem → StockItem
settle origin x = record x { store_id = some (or_else x.store_id origin) }

abbrev moved_from : Option Text → Option Text → Bool
moved_from expected actual = truthy expected && not (same_text actual expected)

unfoldable pub check_epc_row : ℕ → Option Text → Option Text → StockItem → Result (Unit {0})
unfolding truthy same_text
check_epc_row origin expected_location_code expected_pool x = do
  raise_if (not (is_just x.store_id origin)) business_conflict
  raise_if (same_text x.status (some (codes "SOLD"))) validation_error
  raise_if (moved_from expected_location_code x.location_code) business_conflict
  raise_if (moved_from expected_pool x.pool) business_conflict

unfoldable pub validate_transferable_epc_stock :
    ℕ
    → ℕ
    → Option Text
    → Option Text
    → Option Text
    → List Tracked
    → Result (StockItem × List Tracked)
unfolding matching same_text check_epc_row change_first
validate_transferable_epc_stock tenant origin epc expected_location_code expected_pool rows = do
  r ← or_raise (first (matching (epc_row tenant epc) rows)) validation_error
  let x = settle origin r.live
  check_epc_row origin expected_location_code expected_pool x
  ok (x, change_first (write (settle origin)) (epc_row tenant epc) 1 rows)

-- The filters with which the select of `_validate_transferable_sku_stock` is made.
unfoldable pub sku_filters :
    ℕ → ℕ → Option Text → Option Text → TransferLineSnapshot → StockItem → Bool
unfolding transfer_sku_filters truthy
sku_filters tenant origin expected_location_code expected_pool snapshot =
    transfer_sku_filters tenant origin snapshot.sku
      (text_or expected_location_code snapshot.location_code) (text_or expected_pool snapshot.pool)

-- What it checks; the callers take the rows from the select again.
unfoldable pub validate_transferable_sku_stock :
    ℕ → ℕ → ℕ → Option Text → Option Text → TransferLineSnapshot → List Tracked → Result (Unit {0})
unfolding truthy matching sku_filters
validate_transferable_sku_stock tenant origin qty location_code pool snapshot rows = do
  raise_if (not (truthy snapshot.sku)) validation_error
  raise_if
      (ltb (length (matching (sku_filters tenant origin location_code pool snapshot) rows)) qty)
      business_conflict

unfoldable pub stock_snapshot_from_item : StockItem → TransferLineSnapshot
stock_snapshot_from_item x = record {
  sku = x.sku;
  description = x.description;
  var1_value = x.var1_value;
  var2_value = x.var2_value;
  epc = x.epc;
  location_code = x.location_code;
  pool = x.pool;
  status = x.status;
  location_is_vendible = x.location_is_vendible;
}

-- A line with what the stock says of it. The select of a SKU line has a row, the quantity being at
-- least 1.
unfoldable pub normalize_sku_line :
    ℕ → ℕ → TransferLineCreate → List Tracked → Result (TransferLineCreate × List Tracked)
unfolding validate_transferable_sku_stock matching sku_filters stock_snapshot_from_item
normalize_sku_line tenant origin line rows = do
  validate_transferable_sku_stock tenant origin line.qty none none line.snapshot rows
  r ←
      or_raise (first (matching (sku_filters tenant origin none none line.snapshot) rows))
        business_conflict
  let snapshot = record (stock_snapshot_from_item r.live) { epc = none }
  ok (record line { snapshot = snapshot }, rows)

unfoldable pub normalize_epc_line :
    ℕ
    → ℕ
    → Option ℕ
    → TransferDb
    → TransferLineCreate
    → List Tracked
    → Result (TransferLineCreate × List Tracked)
unfolding validate_transferable_epc_stock get_transfer_conflict_for_epc stock_snapshot_from_item
normalize_epc_line tenant origin exclude db line rows = do
  found ← validate_transferable_epc_stock tenant origin line.snapshot.epc none none rows
  raise_if (get_transfer_conflict_for_epc tenant line.snapshot.epc origin exclude db)
      business_conflict
  ok (record line { snapshot = stock_snapshot_from_item found.0 }, found.1)

unfoldable pub normalize_transfer_line :
    ℕ
    → ℕ
    → Option ℕ
    → TransferDb
    → TransferLineCreate
    → List Tracked
    → Result (TransferLineCreate × List Tracked)
unfolding validate_transfer_snapshot normalize_sku_line normalize_epc_line is_epc
normalize_transfer_line tenant origin exclude db line rows = do
  validate_transfer_snapshot line
  (if is_epc line.line_type
      then normalize_epc_line tenant origin exclude db line rows
      else normalize_sku_line tenant origin line rows)

-- `(line.snapshot.epc or "").strip()`
abbrev pub line_epc : TransferLineCreate → Text
line_epc line = strip (or_else line.snapshot.epc [])

unfoldable pub normalize_transfer_lines :
    ℕ
    → ℕ
    → Option ℕ
    → TransferDb
    → List Text
    → List TransferLineCreate
    → List Tracked
    → Result (List TransferLineCreate × List Tracked)
unfolding normalize_transfer_line is_epc member strip
normalize_transfer_lines tenant origin exclude db seen [] rows = ok ([], rows)
normalize_transfer_lines tenant origin exclude db seen (line ∷ lines) rows = do
  raise_if (is_epc line.line_type && member (line_epc line) seen) validation_error
  one ← normalize_transfer_line tenant origin exclude db line rows
  let seen_epcs = if is_epc line.line_type then line_epc line ∷ seen else seen
  rest ← normalize_transfer_lines tenant origin exclude db seen_epcs lines one.1
  ok (one.0 ∷ rest.0, rest.1)

unfoldable pub revalidate_epc_line :
    ℕ → ℕ → ℕ → TransferDb → TransferLineSnapshot → List Tracked → Result (List Tracked)
unfolding validate_transferable_epc_stock truthy assert_draft_line_not_stale
    get_transfer_conflict_for_epc
revalidate_epc_line tenant origin transfer db s rows = do
  raise_if (not (truthy s.epc)) validation_error
  assert_draft_line_not_stale tenant origin s.epc rows
  found ← validate_transferable_epc_stock tenant origin s.epc s.location_code s.pool rows
  raise_if (get_transfer_conflict_for_epc tenant s.epc origin (some transfer) db) business_conflict
  ok found.1

unfoldable pub revalidate_sku_line :
    ℕ → ℕ → ℕ → TransferLineSnapshot → List Tracked → Result (List Tracked)
unfolding validate_transferable_sku_stock
revalidate_sku_line tenant origin qty s rows = do
  validate_transferable_sku_stock tenant origin qty s.location_code s.pool s rows
  ok rows

-- The body of the loop of `_revalidate_existing_draft_lines`.
unfoldable pub revalidate_draft_line :
    ℕ → ℕ → ℕ → TransferDb → TransferLine → List Tracked → Result (List Tracked)
unfolding revalidate_epc_line revalidate_sku_line is_epc
revalidate_draft_line tenant origin transfer db line rows =
    if is_epc line.line_type
    then revalidate_epc_line tenant origin transfer db line.snapshot rows
    else revalidate_sku_line tenant origin line.qty line.snapshot rows

unfoldable pub revalidate_existing_draft_lines :
    ℕ → ℕ → ℕ → TransferDb → List TransferLine → List Tracked → Result (List Tracked)
unfolding revalidate_draft_line
revalidate_existing_draft_lines tenant origin transfer db [] rows = ok rows
revalidate_existing_draft_lines tenant origin transfer db (line ∷ lines) rows = do
  after ← revalidate_draft_line tenant origin transfer db line rows
  revalidate_existing_draft_lines tenant origin transfer db lines after
