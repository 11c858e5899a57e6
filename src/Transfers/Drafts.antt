-- ===== src/Transfers/Drafts.antt =====
-- `create_transfer`, `update_transfer` and `get_transfer_detail` of app/aris3/routers/transfers.py.
-- Idempotency stands before each of them (the module Idempotency).
use aris_cloud.Prelude.{
  ℕ, suc, not, List, [], ◌∷◌, ◌++◌, map, if◌then◌else◌, is_empty, select, Option, none, some, ◌==◌,
  or_else,
}
use aris_cloud.Prelude.Result.{Result, ok, ◌>>=◌, ◌>>◌, raise_if, or_raise, validation_error}
use aris_cloud.Prelude.Text.{Text}
use aris_cloud.Transfers.{
  Transfer, TransferLine, TransferLineCreate, TransferDb, Caller, draft, is_draft,
  enforce_transfer_store, is_visible_transfer, resolve_transfer_tenant, ensure_store_tenant,
  find_transfer, put_transfer, get_lines,
}
use aris_cloud.Transfers.Stock.{Tracked, begin, commit}
use aris_cloud.Transfers.Totals.{
  LineStatus, MovementSummary, totals_of, get_movement_totals, line_status_from_totals,
  movement_summary,
}
use aris_cloud.Transfers.Lines.{truthy, normalize_transfer_lines, revalidate_existing_draft_lines}

pub record TransferCreateRequest : Type 0 where
  pub transaction_id : Option Text
  pub tenant_id : Option ℕ
  pub origin_store_id : ℕ
  pub destination_store_id : ℕ
  pub lines : List TransferLineCreate

pub record TransferUpdateRequest : Type 0 where
  pub transaction_id : Option Text
  pub tenant_id : Option ℕ
  pub origin_store_id : Option ℕ
  pub destination_store_id : Option ℕ
  pub lines : Option (List TransferLineCreate)

unfoldable pub require_transaction_id : Option Text → Result (Unit {0})
unfolding truthy
require_transaction_id transaction_id = raise_if (not (truthy transaction_id)) validation_error

-- The rows of the lines, from the k-th on.
unfoldable pub transfer_lines : Caller → ℕ → ℕ → ℕ → List TransferLineCreate → List TransferLine
transfer_lines c tenant transfer k [] = []
transfer_lines c tenant transfer k (line ∷ lines) =
    record {
      id = c.new_line_id k;
      transfer_id = transfer;
      tenant_id = tenant;
      line_type = line.line_type;
      qty = line.qty;
      snapshot = line.snapshot;
    }
    ∷ transfer_lines c tenant transfer (suc k) lines

-- Two stores of the tenant, the origin being in the caller's scope.
unfoldable pub check_stores : Caller → ℕ → ℕ → ℕ → TransferDb → Result (Unit {0})
unfolding ensure_store_tenant enforce_transfer_store
check_stores c tenant origin destination db = do
  raise_if (origin == destination) validation_error
  ensure_store_tenant tenant origin db.stores
  ensure_store_tenant tenant destination db.stores
  enforce_transfer_store c.token origin

abbrev new_transfer : Caller → ℕ → TransferCreateRequest → Transfer
new_transfer c tenant payload = record {
  id = c.new_id;
  tenant_id = tenant;
  origin_store_id = payload.origin_store_id;
  destination_store_id = payload.destination_store_id;
  status = draft;
  received_at = none;
}

unfoldable pub create_transfer : Caller → TransferCreateRequest → TransferDb → Result TransferDb
unfolding require_transaction_id resolve_transfer_tenant check_stores normalize_transfer_lines begin
    commit transfer_lines
create_transfer c payload db = do
  require_transaction_id payload.transaction_id
  tenant ← resolve_transfer_tenant c.token payload.tenant_id
  check_stores c tenant payload.origin_store_id payload.destination_store_id db
  raise_if (is_empty payload.lines) validation_error
  done ←
      normalize_transfer_lines tenant payload.origin_store_id none db [] payload.lines
        (begin db.stock)
  ok (record db {
    stock = commit done.1;
    transfers = new_transfer c tenant payload ∷ db.transfers;
    lines = db.lines ++ transfer_lines c tenant c.new_id 0 done.0;
  })

unfoldable pub replace_lines : ℕ → List TransferLine → List TransferLine → List TransferLine
replace_lines transfer new lines = select (λ l. not (l.transfer_id == transfer)) lines ++ new

-- The lines and the stock after an update: new lines, or the old ones checked again.
unfoldable pub update_lines :
    Caller
    → ℕ
    → ℕ
    → ℕ
    → Option (List TransferLineCreate)
    → TransferDb
    → Result (List TransferLine × List Tracked)
unfolding normalize_transfer_lines revalidate_existing_draft_lines begin replace_lines
    transfer_lines get_lines
update_lines c tenant transfer origin (some lines) db = do
  raise_if (is_empty lines) validation_error
  done ← normalize_transfer_lines tenant origin (some transfer) db [] lines (begin db.stock)
  ok (replace_lines transfer (transfer_lines c tenant transfer 0 done.0) db.lines, done.1)
update_lines c tenant transfer origin none db = do
  rows ←
      revalidate_existing_draft_lines tenant origin transfer db (get_lines transfer db.lines)
        (begin db.stock)
  ok (db.lines, rows)

unfoldable pub update_transfer : Caller → ℕ → TransferUpdateRequest → TransferDb → Result TransferDb
unfolding require_transaction_id resolve_transfer_tenant find_transfer is_draft check_stores
    update_lines commit put_transfer
update_transfer c transfer_id payload db = do
  require_transaction_id payload.transaction_id
  tenant ← resolve_transfer_tenant c.token payload.tenant_id
  transfer ← or_raise (find_transfer tenant transfer_id db.transfers) validation_error
  raise_if (not (is_draft transfer.status)) validation_error
  let origin = or_else payload.origin_store_id transfer.origin_store_id
  let destination = or_else payload.destination_store_id transfer.destination_store_id
  check_stores c tenant origin destination db
  done ← update_lines c tenant transfer.id origin payload.lines db
  let moved = record transfer { origin_store_id = origin; destination_store_id = destination }
  ok (record db {
    stock = commit done.1;
    transfers = put_transfer moved db.transfers;
    lines = done.0;
  })

pub record TransferResponse : Type 0 where
  pub header : Transfer
  pub lines : List (TransferLine × LineStatus)
  pub movement_summary : MovementSummary

unfoldable pub transfer_response : Transfer → TransferDb → TransferResponse
unfolding get_movement_totals get_lines line_status_from_totals totals_of movement_summary
transfer_response transfer db =
    let totals = get_movement_totals transfer.id db.movements in
    record {
      header = transfer;
      lines =
          map (λ l. (l, line_status_from_totals l (totals_of l.id totals)))
            (get_lines transfer.id db.lines);
      movement_summary = movement_summary transfer db.movements totals;
    }

-- A draft is checked again, and nothing is committed.
check_draft : ℕ → Transfer → TransferDb → Result (List Tracked)
unfolding is_draft get_lines begin revalidate_existing_draft_lines
check_draft tenant transfer db =
    if is_draft transfer.status
    then revalidate_existing_draft_lines tenant transfer.origin_store_id transfer.id db
        (get_lines transfer.id db.lines) (begin db.stock)
    else ok []

unfoldable pub get_transfer_detail : Caller → ℕ → TransferDb → Result TransferResponse
unfolding resolve_transfer_tenant find_transfer is_visible_transfer check_draft transfer_response
get_transfer_detail c transfer_id db = do
  tenant ← resolve_transfer_tenant c.token c.token.tenant_id
  transfer ← or_raise (find_transfer tenant transfer_id db.transfers) validation_error
  raise_if (not (is_visible_transfer c.token transfer)) validation_error
  check_draft tenant transfer db
  ok (transfer_response transfer db)
