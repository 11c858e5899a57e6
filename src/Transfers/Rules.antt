-- ===== src/Transfers/Rules.antt =====
-- Rules for the actions of app/aris3/routers/transfers.py: what is to be shown of an action that
-- succeeds, with the conditions that its checks established.
use aris_cloud.Prelude.{
  ℕ, ◌≡◌, true, not, ◌&&◌, ◌||◌, List, ◌++◌, map, is_empty, arith, Option, some, leb, is_some,
}
use aris_cloud.Prelude.Result.{
  ok, or_raise, Ensures, Ensures-bind, or_raise-some, Ensures-raise_if, validation_error,
  permission_denied,
}
use aris_cloud.Prelude.Text.{codes}
use aris_cloud.Transfers.{
  Transfer, dispatched, canceled, TransferReceiveLine, TransferShortageLine,
  TransferShortageResolution, TransferDb, Caller, shortage_reported, put_transfer,
  require_action_permission, enforce_transfer_store, get_lines, is_draft, is_dispatched,
  is_in_transit,
}
use aris_cloud.Transfers.Stock.{Tracked, begin, commit}
use aris_cloud.Transfers.Lines.{revalidate_existing_draft_lines}
use aris_cloud.Transfers.Totals.{MovementTotals, get_movement_totals, outstanding_total}
use aris_cloud.Transfers.Actions.Dispatch.{
  dispatch_movement, dispatch_lines, dispatch_transfer, cancel_transfer, cancel_stock,
}
use aris_cloud.Transfers.Actions.Receive.{
  receive_movement, receive_each, receive_transfer, add_received, settle_receive,
}
use aris_cloud.Transfers.Actions.Shortages.{
  shortage_movement, report_each, resolve_each, resolved_by, report_shortages, resolve_shortages,
  resolve_lines, may_resolve, add_resolved, settle_resolve,
}

module _ {κ} (P : TransferDb → Type κ) (c : Caller) (tenant : ℕ) (t : Transfer)
    (db : TransferDb) where
  abbrev totals : MovementTotals
  totals = get_movement_totals t.id db.movements

  -- The tables after a dispatch.
  abbrev pub dispatched_db : List Tracked → TransferDb
  dispatched_db rows = record db {
    stock = commit rows;
    transfers = put_transfer (record t { status = dispatched }) db.transfers;
    movements = map (dispatch_movement tenant t.id) (get_lines t.id db.lines) ++ db.movements;
  }

  pub dispatch_rule :
      (enforce_transfer_store c.token t.origin_store_id ≡ ok tt
        → is_draft t.status ≡ true
        → (checked rows : List Tracked)
        → revalidate_existing_draft_lines tenant t.origin_store_id t.id db
            (get_lines t.id db.lines)
            (begin db.stock)
          ≡ ok checked
        → dispatch_lines tenant t.origin_store_id (get_lines t.id db.lines) checked ≡ ok rows
        → P (dispatched_db rows))
      → Ensures P (dispatch_transfer c tenant t db)
  unfolding dispatch_transfer
  dispatch_rule k =
      Ensures-bind P (require_action_permission c (codes "transfers.dispatch")) _ λ _ _.
        Ensures-bind P (enforce_transfer_store c.token t.origin_store_id) _ λ _ scope.
          Ensures-raise_if P (not (is_draft t.status)) validation_error _ λ h.
            Ensures-raise_if P (is_empty (get_lines t.id db.lines)) validation_error _ λ _.
              Ensures-bind P
                (revalidate_existing_draft_lines tenant t.origin_store_id t.id db
                  (get_lines t.id db.lines) (begin db.stock))
                _
                λ checked e.
                  Ensures-bind P
                    (dispatch_lines tenant t.origin_store_id (get_lines t.id db.lines) checked) _
                    λ rows e'. k scope (ground arith) checked rows e e'

  pub cancel_rule :
      ((is_draft t.status || is_dispatched t.status) ≡ true
        → (rows : List Tracked) → cancel_stock tenant t db ≡ ok rows
        → P (record db {
          stock = commit rows;
          transfers = put_transfer (record t { status = canceled }) db.transfers;
        }))
      → Ensures P (cancel_transfer c tenant t db)
  unfolding cancel_transfer
  cancel_rule k = Ensures-bind P (require_action_permission c (codes "transfers.cancel")) _ λ _ _.
      Ensures-raise_if P (is_dispatched t.status && is_some t.received_at) validation_error _ λ _.
        Ensures-raise_if P (not (is_draft t.status || is_dispatched t.status)) validation_error _
          λ h. Ensures-bind P (cancel_stock tenant t db) _ λ rows e. k (ground arith) rows e

  pub receive_rule :
      (rs : List TransferReceiveLine)
      → (enforce_transfer_store c.token t.destination_store_id ≡ ok tt
          → is_in_transit t.status ≡ true
          → (rows : List Tracked)
          → receive_each c.id_text tenant t (get_lines t.id db.lines) totals rs (begin db.stock)
            ≡ ok rows
          → P (record db {
            stock = commit rows;
            transfers = put_transfer (settle_receive c.now (add_received rs totals) t) db.transfers;
            movements = map (receive_movement tenant t.id) rs ++ db.movements;
          }))
      → Ensures P (receive_transfer c tenant rs t db)
  unfolding receive_transfer
  receive_rule rs k =
      Ensures-bind P (require_action_permission c (codes "transfers.receive")) _ λ _ _.
        Ensures-bind P (enforce_transfer_store c.token t.destination_store_id) _ λ _ scope.
          Ensures-raise_if P (not (is_in_transit t.status)) validation_error _ λ h.
            Ensures-raise_if P (is_empty rs) validation_error _ λ _.
              Ensures-bind P
                (receive_each c.id_text tenant t (get_lines t.id db.lines) totals rs
                  (begin db.stock))
                _ λ rows e. k scope (ground arith) rows e

  pub report_rule :
      (ss : List TransferShortageLine)
      → (is_in_transit t.status ≡ true
          → report_each (get_lines t.id db.lines) totals ss ≡ ok tt
          → P (record db {
            movements = map (shortage_movement tenant t.id shortage_reported) ss ++ db.movements;
          }))
      → Ensures P (report_shortages c tenant ss t db)
  unfolding report_shortages
  report_rule ss k =
      Ensures-bind P (require_action_permission c (codes "transfers.resolve")) _ λ _ _.
        Ensures-bind P (enforce_transfer_store c.token t.destination_store_id) _ λ _ _.
          Ensures-raise_if P (not (is_in_transit t.status)) validation_error _ λ h.
            Ensures-raise_if P (is_empty ss) validation_error _ λ _.
              Ensures-raise_if P (leb (outstanding_total totals) 0) validation_error _ λ _.
                Ensures-bind P (report_each (get_lines t.id db.lines) totals ss) _
                  λ _ e. k (ground arith) e

  -- The tables after a resolution.
  abbrev pub resolved_db : TransferShortageResolution → List Tracked → TransferDb
  resolved_db r rows = record db {
    stock = commit rows;
    transfers =
        put_transfer
          (settle_resolve c.now (add_resolved (resolved_by r.resolution) r.lines totals) t)
          db.transfers;
    movements =
        map (shortage_movement tenant t.id (resolved_by r.resolution)) r.lines ++ db.movements;
  }

  lines_rule :
      (r : TransferShortageResolution)
      → ((rows : List Tracked)
          → resolve_each tenant r.resolution t
              (get_lines t.id db.lines)
              totals
              r.lines
              (begin db.stock)
            ≡ ok rows
          → P (resolved_db r rows))
      → Ensures P (resolve_lines c tenant r t db)
  unfolding resolve_lines
  lines_rule r k = Ensures-raise_if P (is_empty r.lines) validation_error _ λ _.
      Ensures-raise_if P (not (may_resolve c.token r.resolution)) permission_denied _ λ _.
        Ensures-bind P
          (resolve_each tenant r.resolution t (get_lines t.id db.lines) totals r.lines
            (begin db.stock))
          _ k

  pub resolve_rule :
      (given : Option TransferShortageResolution)
      → ((r : TransferShortageResolution)
          → given ≡ some r
          → is_in_transit t.status ≡ true
          → (rows : List Tracked)
          → resolve_each tenant r.resolution t
              (get_lines t.id db.lines)
              totals
              r.lines
              (begin db.stock)
            ≡ ok rows
          → P (resolved_db r rows))
      → Ensures P (resolve_shortages c tenant given t db)
  unfolding resolve_shortages
  resolve_rule given k =
      Ensures-bind P (require_action_permission c (codes "transfers.resolve")) _ λ _ _.
        Ensures-bind P (enforce_transfer_store c.token t.destination_store_id) _ λ _ _.
          Ensures-raise_if P (not (is_in_transit t.status)) validation_error _ λ h.
            Ensures-bind P (or_raise given validation_error) _
              λ r e. lines_rule r (k r (or_raise-some given validation_error e) (ground arith))
