-- ===== src/Transfers/Actions/Shortages.antt =====
-- The actions `report_shortages` and `resolve_shortages` of `transfer_actions` in
-- app/aris3/routers/transfers.py.
use aris_cloud.Prelude.{
  ℕ, ◌+◌, Bool, true, not, ◌&&◌, ◌||◌, List, [], ◌∷◌, ◌++◌, map, if◌then◌else◌, is_empty, Option,
  some, ◌==◌, ltb, leb,
}
use aris_cloud.Prelude.Result.{
  Result, ok, ◌>>=◌, ◌>>◌, raise_if, or_raise, validation_error, permission_denied,
}
use aris_cloud.Prelude.Text.{codes, member}
use aris_cloud.Scope.{TokenData, is_superadmin}
use aris_cloud.Transfers.{
  Transfer, TransferLine, TransferShortageLine, TransferShortageResolution, ResolutionType,
  found_and_resend, lost_in_route, TransferMovement, MovementAction, TransferDb, Caller, received,
  is_epc, is_in_transit, shortage_reported, shortage_resolved_found_and_resend,
  shortage_resolved_lost_in_route, require_action_permission, enforce_transfer_store, put_transfer,
  get_lines,
}
use aris_cloud.Transfers.Stock.{
  Tracked, begin, commit, change_rows, delete, anywhere, at_or_nowhere, in_transit_sku,
  in_transit_epc,
}
use aris_cloud.Transfers.Totals.{
  MovementTotals, totals_of, add_to, get_movement_totals, outstanding, outstanding_total,
  shortage_remaining,
}
use aris_cloud.Transfers.Actions.Receive.{find_transfer_line}

-- The line that a shortage or a resolution names, with its quantity checked.
unfoldable pub check_shortage_line : List TransferLine → TransferShortageLine → Result TransferLine
unfolding find_transfer_line is_epc
check_shortage_line lines s = do
  line ← or_raise (find_transfer_line s.line_id lines) validation_error
  raise_if (ltb s.qty 1) validation_error
  raise_if (is_epc line.line_type && not (s.qty == 1)) validation_error
  ok line

unfoldable pub report_each :
    List TransferLine → MovementTotals → List TransferShortageLine → Result (Unit {0})
unfolding check_shortage_line totals_of
report_each lines totals [] = ok tt
report_each lines totals (s ∷ ss) = do
  check_shortage_line lines s
  let t = totals_of s.line_id totals
  raise_if (ltb (outstanding t) (s.qty + t.reported)) validation_error
  report_each lines totals ss

abbrev pub shortage_movement : ℕ → ℕ → MovementAction → TransferShortageLine → TransferMovement
shortage_movement tenant transfer action s = record {
  tenant_id = tenant;
  transfer_id = transfer;
  transfer_line_id = s.line_id;
  action = action;
  qty = s.qty;
}

unfoldable pub report_shortages :
    Caller → ℕ → List TransferShortageLine → Transfer → TransferDb → Result TransferDb
unfolding require_action_permission enforce_transfer_store is_in_transit get_lines
    get_movement_totals outstanding_total report_each
report_shortages c tenant shortages transfer db = do
  require_action_permission c (codes "transfers.resolve")
  enforce_transfer_store c.token transfer.destination_store_id
  raise_if (not (is_in_transit transfer.status)) validation_error
  raise_if (is_empty shortages) validation_error
  let totals = get_movement_totals transfer.id db.movements
  raise_if (leb (outstanding_total totals) 0) validation_error
  report_each (get_lines transfer.id db.lines) totals shortages
  ok (record db {
    movements =
        map (shortage_movement tenant transfer.id shortage_reported) shortages ++ db.movements;
  })

unfoldable pub resolved_by : ResolutionType → MovementAction
resolved_by found_and_resend = shortage_resolved_found_and_resend
resolved_by lost_in_route = shortage_resolved_lost_in_route

-- The units of a lost line are deleted.
unfoldable pub lose_units :
    ℕ → Transfer → TransferLine → TransferShortageLine → List Tracked → Result (List Tracked)
unfolding change_rows in_transit_sku in_transit_epc is_epc
lose_units tenant transfer line s rows =
    if is_epc line.line_type
    then change_rows delete validation_error (in_transit_epc tenant anywhere line.snapshot.epc) 1
        rows
    else change_rows delete validation_error
        (in_transit_sku tenant (at_or_nowhere transfer.origin_store_id) line.snapshot) s.qty rows

unfoldable pub resolve_units :
    ℕ
    → ResolutionType
    → Transfer
    → TransferLine
    → TransferShortageLine
    → List Tracked
    → Result (List Tracked)
unfolding lose_units
resolve_units tenant found_and_resend transfer line s rows = ok rows
resolve_units tenant lost_in_route transfer line s rows = lose_units tenant transfer line s rows

-- What is asked of a line before its units are looked for; the line of the transfer.
unfoldable pub check_resolution_line :
    List TransferLine → MovementTotals → TransferShortageLine → Result TransferLine
unfolding check_shortage_line totals_of
check_resolution_line lines totals s = do
  line ← check_shortage_line lines s
  raise_if (ltb (shortage_remaining (totals_of s.line_id totals)) s.qty) validation_error
  ok line

-- The loop over `payload.resolution.lines`.
unfoldable pub resolve_each :
    ℕ
    → ResolutionType
    → Transfer
    → List TransferLine
    → MovementTotals
    → List TransferShortageLine
    → List Tracked
    → Result (List Tracked)
unfolding check_resolution_line resolve_units
resolve_each tenant resolution transfer lines totals [] rows = ok rows
resolve_each tenant resolution transfer lines totals (s ∷ ss) rows = do
  line ← check_resolution_line lines totals s
  after ← resolve_units tenant resolution transfer line s rows
  resolve_each tenant resolution transfer lines totals ss after

unfoldable pub add_resolved :
    MovementAction → List TransferShortageLine → MovementTotals → MovementTotals
unfolding add_to
add_resolved action [] totals = totals
add_resolved action (s ∷ ss) totals = add_resolved action ss (add_to action s.line_id s.qty totals)

unfoldable pub settle_resolve : ℕ → MovementTotals → Transfer → Transfer
unfolding outstanding_total is_in_transit
settle_resolve now totals transfer =
    if outstanding_total totals == 0 && is_in_transit transfer.status
    then record transfer { status = received; received_at = some now }
    else transfer

-- Only some roles may write stock off; the roles are compared as they stand.
unfoldable pub may_resolve : TokenData → ResolutionType → Bool
unfolding is_superadmin member
may_resolve token found_and_resend = true
may_resolve token lost_in_route =
    is_superadmin (some token.role) || member token.role (codes "MANAGER" ∷ codes "ADMIN" ∷ [])

unfoldable pub resolve_lines :
    Caller → ℕ → TransferShortageResolution → Transfer → TransferDb → Result TransferDb
unfolding may_resolve get_lines begin commit get_movement_totals resolve_each add_resolved
    resolved_by settle_resolve put_transfer
resolve_lines c tenant resolution transfer db = do
  raise_if (is_empty resolution.lines) validation_error
  raise_if (not (may_resolve c.token resolution.resolution)) permission_denied
  let totals = get_movement_totals transfer.id db.movements
  let lines = get_lines transfer.id db.lines
  let action = resolved_by resolution.resolution
  rows ←
      resolve_each tenant resolution.resolution transfer lines totals resolution.lines
        (begin db.stock)
  let after = settle_resolve c.now (add_resolved action resolution.lines totals) transfer
  ok (record db {
    stock = commit rows;
    transfers = put_transfer after db.transfers;
    movements = map (shortage_movement tenant transfer.id action) resolution.lines ++ db.movements;
  })

unfoldable pub resolve_shortages :
    Caller → ℕ → Option TransferShortageResolution → Transfer → TransferDb → Result TransferDb
unfolding require_action_permission enforce_transfer_store is_in_transit resolve_lines
resolve_shortages c tenant resolution transfer db = do
  require_action_permission c (codes "transfers.resolve")
  enforce_transfer_store c.token transfer.destination_store_id
  raise_if (not (is_in_transit transfer.status)) validation_error
  given ← or_raise resolution validation_error
  resolve_lines c tenant given transfer db
