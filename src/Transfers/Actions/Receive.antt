-- ===== src/Transfers/Actions/Receive.antt =====
-- The action `receive` of `transfer_actions` in app/aris3/routers/transfers.py.
use aris_cloud.Prelude.{
  ℕ, true, not, List, [], ◌∷◌, ◌++◌, map, if◌then◌else◌, is_empty, Option, none, some, ◌==◌, ltb,
  or_else,
}
use aris_cloud.Prelude.Result.{Result, ok, ◌>>=◌, ◌>>◌, raise_if, or_raise, validation_error}
use aris_cloud.Prelude.Text.{Text, codes}
use aris_cloud.Transfers.{
  StockItem, Transfer, TransferLine, TransferReceiveLine, TransferMovement, TransferDb, Caller,
  receive, received, partial_received, is_epc, is_in_transit, require_action_permission,
  enforce_transfer_store, put_transfer, get_lines, default_receive_pool,
}
use aris_cloud.Transfers.Stock.{
  Tracked, begin, commit, change_rows, write, at, at_or_nowhere, in_transit_sku, in_transit_epc,
}
use aris_cloud.Transfers.Totals.{
  MovementTotals, totals_of, add_to, get_movement_totals, outstanding, outstanding_total,
}
use aris_cloud.Transfers.Lines.{truthy, text_or}

-- `_resolve_receive_destination` with the writes into a unit.
abbrev pub arrive : (ℕ → Text) → ℕ → TransferReceiveLine → StockItem → StockItem
arrive id_text destination r x = record x {
  location_code = text_or r.location_code (some (codes "STORE-" ++ id_text destination));
  pool = text_or r.pool (some default_receive_pool);
  store_id = some destination;
  location_is_vendible = or_else r.location_is_vendible true;
}

-- `line_map.get(line_id)`
unfoldable pub find_transfer_line : ℕ → List TransferLine → Option TransferLine
find_transfer_line id [] = none
find_transfer_line id (l ∷ ls) = if l.id == id then some l else find_transfer_line id ls

unfoldable pub receive_epc :
    (ℕ → Text)
    → ℕ
    → Transfer
    → TransferLine
    → TransferReceiveLine
    → List Tracked
    → Result (List Tracked)
unfolding truthy change_rows in_transit_epc
receive_epc id_text tenant transfer line r rows = do
  raise_if (not (r.qty == 1)) validation_error
  raise_if (not (truthy line.snapshot.epc)) validation_error
  change_rows (write (arrive id_text transfer.destination_store_id r)) validation_error
      (in_transit_epc tenant (at_or_nowhere transfer.origin_store_id) line.snapshot.epc) 1 rows

-- The units that a line receives.
unfoldable pub receive_units :
    (ℕ → Text)
    → ℕ
    → Transfer
    → TransferLine
    → TransferReceiveLine
    → List Tracked
    → Result (List Tracked)
unfolding receive_epc change_rows in_transit_sku is_epc
receive_units id_text tenant transfer line r rows =
    if is_epc line.line_type
    then receive_epc id_text tenant transfer line r rows
    else change_rows (write (arrive id_text transfer.destination_store_id r)) validation_error
        (in_transit_sku tenant (at transfer.origin_store_id) line.snapshot) r.qty rows

-- What is asked of a line before its units are looked for; the line of the transfer.
unfoldable pub check_receive_line :
    List TransferLine → MovementTotals → TransferReceiveLine → Result TransferLine
unfolding find_transfer_line totals_of
check_receive_line lines totals r = do
  line ← or_raise (find_transfer_line r.line_id lines) validation_error
  raise_if (ltb r.qty 1) validation_error
  raise_if (ltb (outstanding (totals_of r.line_id totals)) r.qty) validation_error
  ok line

-- The body of the loop over `payload.receive_lines`.
unfoldable pub receive_line :
    (ℕ → Text)
    → ℕ
    → Transfer
    → List TransferLine
    → MovementTotals
    → TransferReceiveLine
    → List Tracked
    → Result (List Tracked)
unfolding check_receive_line receive_units
receive_line id_text tenant transfer lines totals r rows = do
  line ← check_receive_line lines totals r
  receive_units id_text tenant transfer line r rows

unfoldable pub receive_each :
    (ℕ → Text)
    → ℕ
    → Transfer
    → List TransferLine
    → MovementTotals
    → List TransferReceiveLine
    → List Tracked
    → Result (List Tracked)
unfolding receive_line
receive_each id_text tenant transfer lines totals [] rows = ok rows
receive_each id_text tenant transfer lines totals (r ∷ rs) rows = do
  after ← receive_line id_text tenant transfer lines totals r rows
  receive_each id_text tenant transfer lines totals rs after

-- The line of the transfer that the movement names is the one that the request names.
abbrev pub receive_movement : ℕ → ℕ → TransferReceiveLine → TransferMovement
receive_movement tenant transfer r = record {
  tenant_id = tenant;
  transfer_id = transfer;
  transfer_line_id = r.line_id;
  action = receive;
  qty = r.qty;
}

-- The totals with what was received, in the order of the lines.
unfoldable pub add_received : List TransferReceiveLine → MovementTotals → MovementTotals
unfolding add_to
add_received [] totals = totals
add_received (r ∷ rs) totals = add_received rs (add_to receive r.line_id r.qty totals)

-- The transfer's status by what is outstanding still.
unfoldable pub settle_receive : ℕ → MovementTotals → Transfer → Transfer
unfolding outstanding_total
settle_receive now totals transfer =
    if outstanding_total totals == 0
    then record transfer { status = received; received_at = some now }
    else record transfer { status = partial_received }

unfoldable pub receive_transfer :
    Caller → ℕ → List TransferReceiveLine → Transfer → TransferDb → Result TransferDb
unfolding require_action_permission enforce_transfer_store is_in_transit get_lines begin commit
    get_movement_totals receive_each add_received settle_receive put_transfer
receive_transfer c tenant receive_lines transfer db = do
  require_action_permission c (codes "transfers.receive")
  enforce_transfer_store c.token transfer.destination_store_id
  raise_if (not (is_in_transit transfer.status)) validation_error
  raise_if (is_empty receive_lines) validation_error
  let totals = get_movement_totals transfer.id db.movements
  let lines = get_lines transfer.id db.lines
  rows ← receive_each c.id_text tenant transfer lines totals receive_lines (begin db.stock)
  let after = settle_receive c.now (add_received receive_lines totals) transfer
  ok (record db {
    stock = commit rows;
    transfers = put_transfer after db.transfers;
    movements = map (receive_movement tenant transfer.id) receive_lines ++ db.movements;
  })
