-- ===== src/Tests/Transfers.antt =====
-- A transfer of two units of a SKU and of one with an EPC (app/aris3/routers/transfers.py).
use aris_cloud.Prelude.{
  ℕ, ◌+◌, refl, ◌≡◌, ◌≢◌, true, List, [], ◌∷◌, map, arith, All, length, Option, none, some,
}
use aris_cloud.Prelude.Result.{ok, err, Ensures}
use aris_cloud.Access.{
  resolve_role_scope, evaluate_sets, sets_for_role, get_denied_permissions, get_user_overrides,
  get_store_role_policy, get_tenant_role_policy, get_allowed_permissions, evaluate_permission,
  AccessDb,
}
use aris_cloud.Transfers.Actions.Dispatch.{
  dispatch_transfer, dispatch_epc, dispatch_sku, dispatch_line, dispatch_lines, dispatch_movement,
  cancel_epc, cancel_line, cancel_lines, cancel_stock, cancel_transfer,
}
use aris_cloud.Transfers.Actions.{
  act_on_transfer, transfer_actions, perform_transfer, TransferRequest, action_request,
}
use aris_cloud.Transfers.Actions.Receive.{
  receive_transfer, receive_movement, receive_each, receive_line, find_transfer_line, receive_epc,
  receive_units, check_receive_line, add_received, settle_receive,
}
use aris_cloud.Transfers.Actions.Shortages.{
  resolve_shortages, check_shortage_line, report_each, report_shortages, resolved_by, lose_units,
  resolve_units, check_resolution_line, resolve_each, add_resolved, settle_resolve, may_resolve,
  resolve_lines,
}
use aris_cloud.Transfers.Totals.{
  outstanding, totals_of, get_movement_totals, bump, add_to, outstanding_total, shortage_status_of,
  resolution_status_of, line_status_from_totals, is_dispatch, sum_qty, count_dispatched,
  movement_summary,
}
use aris_cloud.Transfers.Sums.{moved}
use aris_cloud.Transfers.Live.{is_ok, receive_transfer-completes, receive_each-together}
use aris_cloud.Transfers.Status.{Moves, act_on_transfer-Moves}
use aris_cloud.Transfers.Closed.{perform_transfer-keeps_closed}
use aris_cloud.Transfers.Invariant.Actions.{AreWithin}
use aris_cloud.Transfers.Invariant.{start, next, Arises-AreWithin}
use aris_cloud.Transfers.Settled.{
  IsSettled, receive_transfer-IsSettled, resolve_shortages-IsSettled,
}
use aris_cloud.Transfers.Tracks.{foreign, essence}
use aris_cloud.Transfers.Conserved.{perform_transfer-isolates, perform_transfer-conserves}
use aris_cloud.Transfers.Duties.{dispatch-excludes-receive}
use aris_cloud.Transfers.{
  in_transit_code, has_broad_transfer_scope, enforce_transfer_store, is_visible_transfer,
  resolve_transfer_tenant, require_action_permission, ensure_store_tenant, find_transfer,
  put_transfer, get_lines, is_active, is_draft, is_in_transit, is_dispatched, is_epc, StockItem,
  Transfer, TransferStatus, draft, dispatched, partial_received, received, canceled, TransferLine,
  TransferLineSnapshot, TransferReceiveLine, TransferShortageLine, TransferDb, Caller,
  TransferAction, epc_line, sku_line, LineType, dispatch_action, receive_action,
  report_shortages_action, resolve_shortages_action, cancel_action, lost_in_route,
}
use aris_cloud.Transfers.Stock.{
  begin, commit, matching, change_first, change_rows, same_text, allowed_status, lies_in_transit,
  in_transit_sku, in_transit_epc, matches_if_given, transfer_sku_filters,
}
use aris_cloud.Transfers.Lines.{
  truthy, validate_transfer_snapshot, reserves, get_transfer_conflict_for_epc,
  assert_draft_line_not_stale, check_epc_row, validate_transferable_epc_stock, sku_filters,
  validate_transferable_sku_stock, stock_snapshot_from_item, normalize_sku_line, normalize_epc_line,
  normalize_transfer_line, normalize_transfer_lines, revalidate_epc_line, revalidate_sku_line,
  revalidate_draft_line, revalidate_existing_draft_lines,
}
use aris_cloud.Transfers.Drafts.{
  require_transaction_id, transfer_lines, check_stores, create_transfer, replace_lines,
  update_lines, update_transfer, transfer_response, get_transfer_detail,
}
use aris_cloud.Prelude.Text.{upper, member, strip, text_eq, Text, codes}
use aris_cloud.Scope.{is_superadmin, TokenData}

abbrev admin_token : TokenData
admin_token = record { tenant_id = some 1; store_id = none; role = codes "ADMIN" }

abbrev clerk_token : TokenData
clerk_token = record { tenant_id = some 1; store_id = some 10; role = codes "USER" }

abbrev access : AccessDb
access = record {
  catalog = codes "TRANSFER_MANAGE" ∷ [];
  templates = [];
  tenant_policies = [];
  store_policies = [];
  user_overrides =
      record {
        tenant_id = 1;
        user_id = 7;
        permission_code = codes "TRANSFER_MANAGE";
        effect = some (codes "allow");
      }
      ∷ [];
  deny_resolvers = [];
}

abbrev caller_with : TokenData → Caller
caller_with token = record {
  access = access;
  context = record {
    user_id = some 7;
    tenant_id = some 1;
    store_id = none;
    role = some token.role;
  };
  token = token;
  now = 500;
  new_id = 77;
  new_line_id = λ k. 200 + k;
  id_text = λ s. s ∷ [];
}

abbrev admin : Caller
admin = caller_with admin_token

abbrev unit : ℕ → ℕ → Option Text → StockItem
unit id tenant epc = record {
  id = id;
  tenant_id = tenant;
  store_id = some 10;
  sku = some (codes "A");
  description = none;
  var1_value = none;
  var2_value = none;
  epc = epc;
  location_code = some (codes "F1");
  pool = some (codes "P");
  status = some (codes "PENDING");
  location_is_vendible = true;
}

abbrev snapshot : Option Text → TransferLineSnapshot
snapshot epc = record {
  sku = some (codes "A");
  description = none;
  var1_value = none;
  var2_value = none;
  epc = epc;
  location_code = some (codes "F1");
  pool = some (codes "P");
  status = some (codes "PENDING");
  location_is_vendible = true;
}

abbrev transfer : Transfer
transfer = record {
  id = 5;
  tenant_id = 1;
  origin_store_id = 10;
  destination_store_id = 20;
  status = draft;
  received_at = none;
}

abbrev line : ℕ → LineType → ℕ → Option Text → TransferLine
line id line_type qty epc = record {
  id = id;
  transfer_id = 5;
  tenant_id = 1;
  line_type = line_type;
  qty = qty;
  snapshot = snapshot epc;
}

abbrev db : TransferDb
db = record {
  stores = record { id = 10; tenant_id = 1 } ∷ record { id = 20; tenant_id = 1 } ∷ [];
  stock = unit 1 1 none ∷ unit 2 1 none ∷ unit 3 1 (some (codes "E")) ∷ unit 9 2 none ∷ [];
  transfers = transfer ∷ [];
  lines = line 100 sku_line 2 none ∷ line 101 epc_line 1 (some (codes "E")) ∷ [];
  movements = [];
}

abbrev act : Caller → TransferAction → TransferRequest
act c action =
    action_request c 5
      (record { transaction_id = some (codes "t"); tenant_id = none; action = action })

-- The tables after a request; before it, when it fails.
abbrev after : TransferRequest → TransferDb → TransferDb
after r db = elim (perform_transfer r db) [ ok db' ↦ db' | err e ↦ db ]

abbrev rec : ℕ → ℕ → TransferReceiveLine
rec line qty = record {
  line_id = line;
  qty = qty;
  location_code = none;
  pool = none;
  location_is_vendible = none;
}

abbrev short : ℕ → ℕ → TransferShortageLine
short line qty = record { line_id = line; qty = qty }

abbrev sent : TransferDb
sent = after (act admin dispatch_action) db

abbrev in_part : TransferDb
in_part = after (act admin (receive_action (rec 100 1 ∷ rec 101 1 ∷ []))) sent

abbrev reported : TransferDb
reported = after (act admin (report_shortages_action (short 100 1 ∷ []))) in_part

abbrev lost : TransferDb
lost =
    after
      (act admin (
        resolve_shortages_action
          (some (record { resolution = lost_in_route; lines = short 100 1 ∷ [] }))))
      reported

abbrev back : TransferDb
back = after (act admin cancel_action) sent

abbrev twice : TransferDb
twice = after (act admin (receive_action (rec 100 2 ∷ rec 100 2 ∷ []))) sent

abbrev statuses : TransferDb → List TransferStatus
statuses x = map (λ t. t.status) x.transfers

abbrev places : TransferDb → List (Option Text)
places x = map (λ i. i.location_code) x.stock

abbrev clerk : Caller
clerk = caller_with clerk_token

-- Two lines of one SKU, with three units at the origin.
abbrev two_lines : TransferDb
two_lines = record db {
  stock = unit 1 1 none ∷ unit 2 1 none ∷ unit 4 1 none ∷ [];
  lines = line 100 sku_line 2 none ∷ line 102 sku_line 1 none ∷ [];
}

abbrev under_sent : TransferDb
under_sent = after (act admin dispatch_action) two_lines

-- Out, one unit of the SKU and the EPC in, the other unit reported short and lost; and back. Lines
-- that are received twice in one request, and lines of one SKU, of which one moves the units of both.
runs :
    (statuses sent ≡ dispatched ∷ [])
    × (statuses in_part ≡ partial_received ∷ [])
    × (statuses lost ≡ received ∷ [])
    × (statuses back ≡ canceled ∷ [])
    × (length lost.stock ≡ 3)
    × (back.stock ≡ db.stock)
    × (perform_transfer (act admin dispatch_action) db ≡ ok sent)
    × (dispatch_transfer clerk 1 transfer db ≡ ok sent)
    × (require_action_permission admin (codes "transfers.receive") ≡ ok tt)
    × (enforce_transfer_store admin.token 20 ≡ ok tt)
    × (sum_qty twice.movements ≡ 7)
    × (sum_qty under_sent.movements ≡ 3)
    × (places under_sent ≡ some in_transit_code ∷ some in_transit_code ∷ some (codes "F1") ∷ [])
unfolding has_broad_transfer_scope enforce_transfer_store is_visible_transfer
    resolve_transfer_tenant require_action_permission ensure_store_tenant find_transfer put_transfer
    get_lines is_active is_draft is_in_transit is_dispatched is_epc begin commit matching
    change_first change_rows same_text allowed_status lies_in_transit in_transit_sku in_transit_epc
    matches_if_given transfer_sku_filters bump totals_of add_to get_movement_totals
    outstanding_total shortage_status_of resolution_status_of line_status_from_totals is_dispatch
    sum_qty count_dispatched movement_summary truthy validate_transfer_snapshot reserves
    get_transfer_conflict_for_epc assert_draft_line_not_stale check_epc_row
    validate_transferable_epc_stock sku_filters validate_transferable_sku_stock
    stock_snapshot_from_item normalize_sku_line normalize_epc_line normalize_transfer_line
    normalize_transfer_lines revalidate_epc_line revalidate_sku_line revalidate_draft_line
    revalidate_existing_draft_lines require_transaction_id transfer_lines check_stores
    create_transfer replace_lines update_lines update_transfer transfer_response get_transfer_detail
    act_on_transfer transfer_actions perform_transfer dispatch_epc dispatch_sku dispatch_line
    dispatch_lines dispatch_movement dispatch_transfer cancel_epc cancel_line cancel_lines
    cancel_stock cancel_transfer find_transfer_line receive_epc receive_units check_receive_line
    receive_line receive_each add_received settle_receive receive_transfer check_shortage_line
    report_each report_shortages resolved_by lose_units resolve_units check_resolution_line
    resolve_each add_resolved settle_resolve may_resolve resolve_lines resolve_shortages
    evaluate_permission upper member strip text_eq is_superadmin resolve_role_scope evaluate_sets
    sets_for_role get_denied_permissions get_user_overrides get_store_role_policy
    get_tenant_role_policy get_allowed_permissions
runs = (refl, refl, refl, refl, refl, refl, refl, refl, refl, refl, refl, refl, refl)

abbrev on_way : Transfer
on_way = record transfer { status = dispatched }

abbrev done : Transfer
done = record transfer { status = received; received_at = some 400 }

abbrev closed_db : TransferDb
closed_db = record db { transfers = done ∷ [] }

abbrev rest : List TransferReceiveLine
rest = rec 100 2 ∷ rec 101 1 ∷ []

each_alone :
    All
      (λ r.
        is_ok (
          receive_line admin.id_text 1 on_way
            (get_lines 5 sent.lines)
            (get_movement_totals 5 sent.movements)
            r
            (begin sent.stock))
        ≡ true)
      rest
unfolding has_broad_transfer_scope enforce_transfer_store is_visible_transfer
    resolve_transfer_tenant require_action_permission ensure_store_tenant find_transfer put_transfer
    get_lines is_active is_draft is_in_transit is_dispatched is_epc begin commit matching
    change_first change_rows same_text allowed_status lies_in_transit in_transit_sku in_transit_epc
    matches_if_given transfer_sku_filters bump totals_of add_to get_movement_totals
    outstanding_total shortage_status_of resolution_status_of line_status_from_totals is_dispatch
    sum_qty count_dispatched movement_summary truthy validate_transfer_snapshot reserves
    get_transfer_conflict_for_epc assert_draft_line_not_stale check_epc_row
    validate_transferable_epc_stock sku_filters validate_transferable_sku_stock
    stock_snapshot_from_item normalize_sku_line normalize_epc_line normalize_transfer_line
    normalize_transfer_lines revalidate_epc_line revalidate_sku_line revalidate_draft_line
    revalidate_existing_draft_lines require_transaction_id transfer_lines check_stores
    create_transfer replace_lines update_lines update_transfer transfer_response get_transfer_detail
    act_on_transfer transfer_actions perform_transfer dispatch_epc dispatch_sku dispatch_line
    dispatch_lines dispatch_movement dispatch_transfer cancel_epc cancel_line cancel_lines
    cancel_stock cancel_transfer find_transfer_line receive_epc receive_units check_receive_line
    receive_line receive_each add_received settle_receive receive_transfer check_shortage_line
    report_each report_shortages resolved_by lose_units resolve_units check_resolution_line
    resolve_each add_resolved settle_resolve may_resolve resolve_lines resolve_shortages
    evaluate_permission upper member strip text_eq is_superadmin resolve_role_scope evaluate_sets
    sets_for_role get_denied_permissions get_user_overrides get_store_role_policy
    get_tenant_role_policy get_allowed_permissions
each_alone = (refl, (refl, tt))

all_asked :
    (l : ℕ)
    → moved l (map (receive_movement 1 5) rest)
      ≡ outstanding (totals_of l (get_movement_totals 5 sent.movements))
unfolding has_broad_transfer_scope enforce_transfer_store is_visible_transfer
    resolve_transfer_tenant require_action_permission ensure_store_tenant find_transfer put_transfer
    get_lines is_active is_draft is_in_transit is_dispatched is_epc begin commit matching
    change_first change_rows same_text allowed_status lies_in_transit in_transit_sku in_transit_epc
    matches_if_given transfer_sku_filters bump totals_of add_to get_movement_totals
    outstanding_total shortage_status_of resolution_status_of line_status_from_totals is_dispatch
    sum_qty count_dispatched movement_summary truthy validate_transfer_snapshot reserves
    get_transfer_conflict_for_epc assert_draft_line_not_stale check_epc_row
    validate_transferable_epc_stock sku_filters validate_transferable_sku_stock
    stock_snapshot_from_item normalize_sku_line normalize_epc_line normalize_transfer_line
    normalize_transfer_lines revalidate_epc_line revalidate_sku_line revalidate_draft_line
    revalidate_existing_draft_lines require_transaction_id transfer_lines check_stores
    create_transfer replace_lines update_lines update_transfer transfer_response get_transfer_detail
    act_on_transfer transfer_actions perform_transfer dispatch_epc dispatch_sku dispatch_line
    dispatch_lines dispatch_movement dispatch_transfer cancel_epc cancel_line cancel_lines
    cancel_stock cancel_transfer find_transfer_line receive_epc receive_units check_receive_line
    receive_line receive_each add_received settle_receive receive_transfer check_shortage_line
    report_each report_shortages resolved_by lose_units resolve_units check_resolution_line
    resolve_each add_resolved settle_resolve may_resolve resolve_lines resolve_shortages
    evaluate_permission upper member strip text_eq is_superadmin resolve_role_scope evaluate_sets
    sets_for_role get_denied_permissions get_user_overrides get_store_role_policy
    get_tenant_role_policy get_allowed_permissions moved
all_asked l = ground arith

receive_transfer-completes_example :
    (db' : TransferDb) × (after : Transfer) × (receive_transfer admin 1 rest on_way sent ≡ ok db')
    × (db'.transfers ≡ put_transfer after sent.transfers)
    × (after.id ≡ 5)
    × (after.status ≡ received)
unfolding is_in_transit
receive_transfer-completes_example =
    receive_transfer-completes admin 1 rest on_way sent runs.8 runs.9 refl refl each_alone all_asked

receive_each-together_example :
    is_ok (
      receive_each admin.id_text 1 on_way
        (get_lines 5 sent.lines)
        (get_movement_totals 5 sent.movements)
        rest
        (begin sent.stock))
    ≡ true
receive_each-together_example =
    receive_each-together admin.id_text 1 on_way (get_lines 5 sent.lines)
      (get_movement_totals 5 sent.movements) rest (begin sent.stock) (begin sent.stock) refl
      each_alone

act_on_transfer-Moves_example :
    Ensures (Moves transfer db) (act_on_transfer admin 1 dispatch_action transfer db)
act_on_transfer-Moves_example = act_on_transfer-Moves admin 1 dispatch_action transfer db

perform_transfer-keeps_closed_example :
    Ensures
      (λ db'. find_transfer 1 5 db'.transfers ≡ some done)
      (perform_transfer (act admin cancel_action) closed_db)
unfolding find_transfer is_active
perform_transfer-keeps_closed_example =
    perform_transfer-keeps_closed (act admin cancel_action) 1 5 done closed_db refl refl
      ((λ _. refl), tt) tt

Arises-AreWithin_example : AreWithin sent.movements
Arises-AreWithin_example =
    Arises-AreWithin (next {db = db} (act admin dispatch_action) (start refl) tt runs.6)

receive_transfer-IsSettled_example :
    Ensures
      (λ db'. IsSettled on_way sent db' partial_received)
      (receive_transfer admin 1 rest on_way sent)
receive_transfer-IsSettled_example = receive_transfer-IsSettled admin 1 rest on_way sent

abbrev write_off : TransferAction
write_off =
    resolve_shortages_action
      (some (record { resolution = lost_in_route; lines = short 100 1 ∷ [] }))

resolve_shortages-IsSettled_example :
    Ensures
      (λ db'. IsSettled on_way reported db' dispatched)
      (resolve_shortages admin 1
        (some (record { resolution = lost_in_route; lines = short 100 1 ∷ [] }))
        on_way
        reported)
resolve_shortages-IsSettled_example =
    resolve_shortages-IsSettled admin 1
      (some (record { resolution = lost_in_route; lines = short 100 1 ∷ [] })) on_way reported

perform_transfer-isolates_example :
    Ensures
      (λ db'.
        (tenant : ℕ)
        → some 1 ≡ some tenant
        → foreign tenant db'.stock ≡ foreign tenant reported.stock)
      (perform_transfer (act admin write_off) reported)
perform_transfer-isolates_example = perform_transfer-isolates (act admin write_off) reported

perform_transfer-conserves_example :
    Ensures
      (λ db'. map essence db'.stock ≡ map essence db.stock)
      (perform_transfer (act admin dispatch_action) db)
perform_transfer-conserves_example =
    perform_transfer-conserves (act admin dispatch_action) db tt 1 refl

dispatch-excludes-receive_example : receive_transfer clerk 1 rest on_way sent ≢ ok in_part
unfolding has_broad_transfer_scope upper member text_eq
dispatch-excludes-receive_example =
    dispatch-excludes-receive clerk clerk 1 rest transfer on_way db sent sent refl refl
      (ground arith) refl runs.7 in_part
