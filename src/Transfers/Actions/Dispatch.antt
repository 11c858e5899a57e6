-- ===== src/Transfers/Actions/Dispatch.antt =====
-- The actions `dispatch` and `cancel` of `transfer_actions` in app/aris3/routers/transfers.py.
use aris_cloud.Prelude.{
  ℕ, false, not, ◌&&◌, ◌||◌, List, [], ◌∷◌, ◌++◌, map, if◌then◌else◌, is_empty, some, is_some,
}
use aris_cloud.Prelude.Result.{
  Result, ok, ◌>>=◌, ◌>>◌, raise_if, validation_error, business_conflict,
}
use aris_cloud.Prelude.Text.{codes}
use aris_cloud.Transfers.{
  StockItem, Transfer, TransferLine, TransferLineSnapshot, TransferMovement, TransferDb, Caller,
  dispatch, dispatched, canceled, is_epc, is_draft, is_dispatched, require_action_permission,
  enforce_transfer_store, put_transfer, get_lines, in_transit_code,
}
use aris_cloud.Transfers.Stock.{
  Tracked, begin, commit, change_first, change_rows, write, at, in_transit_sku, in_transit_epc,
}
use aris_cloud.Transfers.Lines.{
  truthy, epc_row, sku_filters, validate_transferable_epc_stock, validate_transferable_sku_stock,
  revalidate_existing_draft_lines,
}

-- What the dispatch writes into a unit.
abbrev pub to_transit : StockItem → StockItem
to_transit x = record x {
  location_code = some in_transit_code;
  pool = some in_transit_code;
  location_is_vendible = false;
}

abbrev pub to_transit_from : ℕ → StockItem → StockItem
to_transit_from origin x = record (to_transit x) { store_id = some origin }

unfoldable pub dispatch_epc : ℕ → ℕ → TransferLineSnapshot → List Tracked → Result (List Tracked)
unfolding truthy validate_transferable_epc_stock change_first
dispatch_epc tenant origin s rows = do
  raise_if (not (truthy s.epc)) validation_error
  found ← validate_transferable_epc_stock tenant origin s.epc s.location_code s.pool rows
  ok (change_first (write (to_transit_from origin)) (epc_row tenant s.epc) 1 found.1)

unfoldable pub dispatch_sku :
    ℕ → ℕ → ℕ → TransferLineSnapshot → List Tracked → Result (List Tracked)
unfolding validate_transferable_sku_stock sku_filters change_first
dispatch_sku tenant origin qty s rows = do
  validate_transferable_sku_stock tenant origin qty s.location_code s.pool s rows
  ok (change_first (write to_transit) (sku_filters tenant origin s.location_code s.pool s) qty rows)

-- The body of the loop over the lines.
unfoldable pub dispatch_line : ℕ → ℕ → TransferLine → List Tracked → Result (List Tracked)
unfolding dispatch_epc dispatch_sku is_epc
dispatch_line tenant origin line rows =
    if is_epc line.line_type
    then dispatch_epc tenant origin line.snapshot rows
    else dispatch_sku tenant origin line.qty line.snapshot rows

unfoldable pub dispatch_lines : ℕ → ℕ → List TransferLine → List Tracked → Result (List Tracked)
unfolding dispatch_line
dispatch_lines tenant origin [] rows = ok rows
dispatch_lines tenant origin (line ∷ lines) rows = do
  after ← dispatch_line tenant origin line rows
  dispatch_lines tenant origin lines after

unfoldable pub dispatch_movement : ℕ → ℕ → TransferLine → TransferMovement
unfolding is_epc
dispatch_movement tenant transfer line = record {
  tenant_id = tenant;
  transfer_id = transfer;
  transfer_line_id = line.id;
  action = dispatch;
  qty = if is_epc line.line_type then 1 else line.qty;
}

unfoldable pub dispatch_transfer : Caller → ℕ → Transfer → TransferDb → Result TransferDb
unfolding require_action_permission enforce_transfer_store is_draft get_lines begin commit
    revalidate_existing_draft_lines dispatch_lines dispatch_movement put_transfer
dispatch_transfer c tenant transfer db = do
  require_action_permission c (codes "transfers.dispatch")
  enforce_transfer_store c.token transfer.origin_store_id
  raise_if (not (is_draft transfer.status)) validation_error
  let lines = get_lines transfer.id db.lines
  raise_if (is_empty lines) validation_error
  checked ←
      revalidate_existing_draft_lines tenant transfer.origin_store_id transfer.id db lines
        (begin db.stock)
  rows ← dispatch_lines tenant transfer.origin_store_id lines checked
  ok (record db {
    stock = commit rows;
    transfers = put_transfer (record transfer { status = dispatched }) db.transfers;
    movements = map (dispatch_movement tenant transfer.id) lines ++ db.movements;
  })

-- What the cancellation writes into a unit.
abbrev pub put_back : TransferLineSnapshot → StockItem → StockItem
put_back s x = record x {
  location_code = s.location_code;
  pool = s.pool;
  location_is_vendible = s.location_is_vendible;
}

unfoldable pub cancel_epc : ℕ → ℕ → TransferLineSnapshot → List Tracked → Result (List Tracked)
unfolding truthy change_rows in_transit_epc
cancel_epc tenant origin s rows = do
  raise_if (not (truthy s.epc)) validation_error
  change_rows (write (put_back s)) business_conflict (in_transit_epc tenant (at origin) s.epc) 1
      rows

-- The body of the loop over the lines.
unfoldable pub cancel_line : ℕ → ℕ → TransferLine → List Tracked → Result (List Tracked)
unfolding cancel_epc change_rows in_transit_sku is_epc
cancel_line tenant origin line rows =
    let s = line.snapshot in
    if is_epc line.line_type
    then cancel_epc tenant origin s rows
    else change_rows (write (put_back s)) business_conflict (in_transit_sku tenant (at origin) s)
        line.qty rows

unfoldable pub cancel_lines : ℕ → ℕ → List TransferLine → List Tracked → Result (List Tracked)
unfolding cancel_line
cancel_lines tenant origin [] rows = ok rows
cancel_lines tenant origin (line ∷ lines) rows = do
  after ← cancel_line tenant origin line rows
  cancel_lines tenant origin lines after

-- The units come back only when they were on their way.
unfoldable pub cancel_stock : ℕ → Transfer → TransferDb → Result (List Tracked)
unfolding is_dispatched get_lines begin cancel_lines
cancel_stock tenant transfer db =
    if is_dispatched transfer.status
    then cancel_lines tenant transfer.origin_store_id (get_lines transfer.id db.lines)
        (begin db.stock)
    else ok (begin db.stock)

unfoldable pub cancel_transfer : Caller → ℕ → Transfer → TransferDb → Result TransferDb
unfolding require_action_permission is_dispatched is_draft cancel_stock commit put_transfer
cancel_transfer c tenant transfer db = do
  require_action_permission c (codes "transfers.cancel")
  raise_if (is_dispatched transfer.status && is_some transfer.received_at) validation_error
  raise_if (not (is_draft transfer.status || is_dispatched transfer.status)) validation_error
  rows ← cancel_stock tenant transfer db
  ok (record db {
    stock = commit rows;
    transfers = put_transfer (record transfer { status = canceled }) db.transfers;
  })
