-- ===== src/Transfers/Conserved.antt =====
-- What all requests of app/aris3/routers/transfers.py leave of the stock table.
pub mod Actions
use aris_cloud.Prelude.{
  ℕ, suc, ◌+◌, ◌-◌, ◌≤◌, ◌<◌, ◌↔◌, ◌∙◌, ap, inr, inl, sym, Bool-cases, refl, ◌≡◌, ◌≢◌, Bool, true,
  false, not, ◌&&◌, ◌||◌, List, [], ◌∷◌, ◌++◌, map, if◌then◌else◌, is_empty, arith, All, any,
  select, first, length, ◌⊎◌, Option, none, some, ◌==◌, ltb, leb, max, is_some, is_just, or_else,
  first_some, ==_iff, Option-cases,
}
use aris_cloud.Prelude.Int.{
  ℤ, pos, negsuc, ◌+ℤ◌, ◌-ℤ◌, ◌≤ℤ◌, leb_ℤ, ltb_ℤ, int_laws, +ℤ_parts, -ℤ_parts, eq_of_parts,
}
use aris_cloud.Prelude.Result.{
  Result, ok, err, ◌>>=◌, ◌>>◌, raise_if, or_raise, Ensures, Ensures-bind, Ensures-map,
  or_raise-some, Ensures-ok, Ensures-if, Ensures-raise_if, AppError, validation_error,
  business_conflict, resource_not_found, permission_denied, idempotency_key_required,
  idempotency_request_in_progress, idempotency_key_reused_with_different_payload,
}
use aris_cloud.Prelude.{
  ℕ, suc, ◌+◌, ◌-◌, ◌≤◌, ◌<◌, ◌↔◌, ◌∙◌, ap, inr, inl, sym, Bool-cases, refl, ◌≡◌, ◌≢◌, Bool, true,
  false, not, ◌&&◌, ◌||◌, List, [], ◌∷◌, ◌++◌, map, if◌then◌else◌, is_empty, arith, All, any,
  select, first, length, ◌⊎◌, Option, none, some, ◌==◌, ltb, leb, max, is_some, is_just, or_else,
  first_some, ==_iff, Option-cases,
}
use aris_cloud.Prelude.Int.{
  ℤ, pos, negsuc, ◌+ℤ◌, ◌-ℤ◌, ◌≤ℤ◌, leb_ℤ, ltb_ℤ, int_laws, +ℤ_parts, -ℤ_parts, eq_of_parts,
}
use aris_cloud.Prelude.Result.{
  Result, ok, err, ◌>>=◌, ◌>>◌, raise_if, or_raise, Ensures, Ensures-bind, Ensures-map,
  or_raise-some, Ensures-ok, Ensures-if, Ensures-raise_if, AppError, validation_error,
  business_conflict, resource_not_found, permission_denied, idempotency_key_required,
  idempotency_request_in_progress, idempotency_key_reused_with_different_payload,
}
use aris_cloud.Prelude.Text.{Text, member}
use aris_cloud.Transfers.{
  StockItem, Transfer, TransferLine, TransferLineCreate, TransferShortageLine, found_and_resend,
  TransferDb, is_epc, is_draft, get_lines, find_transfer, resolve_transfer_tenant, Caller,
  TransferAction, dispatch_action, receive_action, report_shortages_action,
  resolve_shortages_action, cancel_action, other_action,
}
use mathlib.Core.Path.{subst}
use aris_cloud.Scope.{TokenData}
use aris_cloud.Transfers.{TransferShortageResolution}
use aris_cloud.Transfers.Stock.{Tracked, begin, commit, matching}
use aris_cloud.Transfers.Totals.{MovementTotals, get_movement_totals}
use aris_cloud.Transfers.Lines.{
  sku_filters, validate_transferable_epc_stock, validate_transferable_sku_stock,
  validate_transfer_snapshot, get_transfer_conflict_for_epc, normalize_sku_line, normalize_epc_line,
  normalize_transfer_line, normalize_transfer_lines, line_epc,
}
use aris_cloud.Transfers.Drafts.{
  TransferCreateRequest, TransferUpdateRequest, create_transfer, update_transfer,
  require_transaction_id, check_stores, update_lines,
}
use aris_cloud.Transfers.Tracks.{
  essence, foreign, Tracks, IsKept, IsLocal, begin-Tracks, commit-IsKept, commit-IsLocal,
}
use aris_cloud.Transfers.Rules.{dispatch_rule, cancel_rule, receive_rule, report_rule, resolve_rule}
use aris_cloud.Transfers.Actions.{
  TransferActionRequest, TransferRequest, create_request, update_request, action_request,
  act_on_transfer, transfer_actions, perform_transfer,
}
use aris_cloud.Transfers.Actions.Dispatch.{dispatch_transfer, cancel_transfer}
use aris_cloud.Transfers.Actions.Receive.{receive_transfer}
use aris_cloud.Transfers.Actions.Shortages.{
  check_resolution_line, resolve_units, resolve_each, resolve_shortages, report_shortages,
}
use aris_cloud.Transfers.Kept.{
  BearsMoves, BearsDeletion, IsOfTenant, write_first, write_rows, validate_epc-Tracks,
  in_transit_sku-IsOfTenant, in_transit_epc-IsOfTenant, sku_filters-IsOfTenant, epc_row-IsOfTenant,
  revalidate-Tracks,
}
use aris_cloud.Transfers.Kept.Dispatch.{dispatch_lines-Tracks, cancel_stock-Tracks}
use aris_cloud.Transfers.Kept.Receive.{receive_each-Tracks, resolve_each-Tracks}
use aris_cloud.Transfers.Kept.Drafts.{
  normalize_lines-Tracks, update_lines-Tracks, resolve_found-Tracks,
}
use aris_cloud.Transfers.Conserved.Actions.{
  LosesNothing, created-Then, updated-Then, act-Then_kept, act-Then,
}

resolved_tenant :
    (token : TokenData) (asked : Option ℕ) {tenant other : ℕ}
    → resolve_transfer_tenant token asked ≡ ok tenant
    → token.tenant_id ≡ some other
    → tenant ≡ other
unfolding resolve_transfer_tenant
resolved_tenant token asked {tenant} {other} h e = ground arith

-- The token of a request, and what it asks of the stock.
abbrev pub token_of : TransferRequest → TokenData
token_of (create_request c payload) = c.token
token_of (update_request c id payload) = c.token
token_of (action_request c id payload) = c.token

abbrev pub RequestLosesNothing : TransferRequest → Type 0
RequestLosesNothing (action_request c id payload) = LosesNothing payload.action
RequestLosesNothing _ = Unit

-- The stock after a request, from the stock after its part for one tenant.
module _ {κ} (R : ℕ → List StockItem → Type κ) (db : TransferDb) where
  abbrev For : TransferRequest → TransferDb → Type κ
  For r db' = (tenant : ℕ) → (token_of r).tenant_id ≡ some tenant → R tenant db'.stock

  create-For :
      (c : Caller) (payload : TransferCreateRequest)
      → ((tenant : ℕ)
          → Ensures
              (λ done. R tenant (commit done.1))
              (normalize_transfer_lines tenant payload.origin_store_id none db [] payload.lines
                (begin db.stock)))
      → Ensures (For (create_request c payload)) (create_transfer c payload db)
  unfolding create_transfer
  create-For c payload k =
      let P = For (create_request c payload) in
      Ensures-bind P (require_transaction_id payload.transaction_id) _ λ _ _.
        Ensures-bind P (resolve_transfer_tenant c.token payload.tenant_id) _ λ tenant h.
          Ensures-bind P
            (check_stores c tenant payload.origin_store_id payload.destination_store_id db) _
            λ _ _. Ensures-raise_if P (is_empty payload.lines) validation_error _ λ _.
              Ensures-bind P
                (normalize_transfer_lines tenant payload.origin_store_id none db [] payload.lines
                  (begin db.stock))
                _
                λ done e. λ other o.
                  subst (λ n. R n (commit done.1)) (resolved_tenant c.token payload.tenant_id h o)
                    (Ensures-ok (λ d. R tenant (commit d.1)) _ (k tenant) e)

  update-For :
      (c : Caller) (id : ℕ) (payload : TransferUpdateRequest)
      → ((tenant transfer origin : ℕ)
          → Ensures
              (λ done. R tenant (commit done.1))
              (update_lines c tenant transfer origin payload.lines db))
      → Ensures (For (update_request c id payload)) (update_transfer c id payload db)
  unfolding update_transfer
  update-For c id payload k =
      let P = For (update_request c id payload) in
      Ensures-bind P (require_transaction_id payload.transaction_id) _ λ _ _.
        Ensures-bind P (resolve_transfer_tenant c.token payload.tenant_id) _ λ tenant h.
          Ensures-bind P (or_raise (find_transfer tenant id db.transfers) validation_error) _ λ u _.
            Ensures-raise_if P (not (is_draft u.status)) validation_error _ λ _.
              let origin = or_else payload.origin_store_id u.origin_store_id in
              let destination = or_else payload.destination_store_id u.destination_store_id in
              Ensures-bind P (check_stores c tenant origin destination db) _ λ _ _.
                Ensures-bind P (update_lines c tenant u.id origin payload.lines db) _ λ done e.
                  λ other o.
                    subst (λ n. R n (commit done.1)) (resolved_tenant c.token payload.tenant_id h o)
                      (Ensures-ok (λ d. R tenant (commit d.1)) _ (k tenant u.id origin) e)

  action-For :
      (c : Caller) (id : ℕ) (payload : TransferActionRequest)
      → ((tenant : ℕ) (t : Transfer)
          → Ensures (λ db'. R tenant db'.stock) (act_on_transfer c tenant payload.action t db))
      → Ensures (For (action_request c id payload)) (transfer_actions c id payload db)
  unfolding transfer_actions
  action-For c id payload k =
      let P = For (action_request c id payload) in
      Ensures-bind P (require_transaction_id payload.transaction_id) _ λ _ _.
        Ensures-bind P (resolve_transfer_tenant c.token payload.tenant_id) _ λ tenant h.
          Ensures-bind P (or_raise (find_transfer tenant id db.transfers) validation_error) _ λ t _.
            Ensures-map (λ db'. R tenant db'.stock) P (act_on_transfer c tenant payload.action t db)
              (λ db' q other o.
                subst (λ n. R n db'.stock) (resolved_tenant c.token payload.tenant_id h o) q)
              (k tenant t)

IsLocal-moves : (tenant : ℕ) → BearsMoves tenant (IsLocal tenant)
IsLocal-moves tenant f r moving of local =
    (ap (λ x. x.tenant_id) (moving r.live) ∙ local.0, λ other. absurd (ground (arith, of, other)))

IsLocal-deletion : (tenant : ℕ) → BearsDeletion tenant (IsLocal tenant)
IsLocal-deletion tenant r of local = (local.0, λ other. absurd (ground (arith, of, other)))

IsKept-moves : (tenant : ℕ) → BearsMoves tenant IsKept
IsKept-moves tenant f r moving of kept = (moving r.live ∙ kept.0, kept.1)

IsLocal-fresh :
    (tenant : ℕ) (x : StockItem) → IsLocal tenant (record { stored = x; live = x; deleted = false })
IsLocal-fresh tenant x = (refl, λ _. (refl, refl))

IsKept-fresh : (x : StockItem) → IsKept (record { stored = x; live = x; deleted = false })
IsKept-fresh x = (refl, refl)

abbrev Isolated : TransferDb → ℕ → List StockItem → Type 0
Isolated db tenant stock = foreign tenant stock ≡ foreign tenant db.stock

abbrev Conserved : TransferDb → ℕ → List StockItem → Type 0
Conserved db tenant stock = map essence stock ≡ map essence db.stock

perform_transfer-For :
    (r : TransferRequest) (db : TransferDb)
    → RequestLosesNothing r
    → Ensures (For (Conserved db) db r) (perform_transfer r db)
unfolding perform_transfer
perform_transfer-For (create_request c payload) db h =
    create-For (Conserved db) db c payload λ tenant.
      created-Then tenant db IsKept (Conserved db tenant) (IsKept-moves tenant) IsKept-fresh
        (commit-IsKept db.stock) refl payload.origin_store_id payload.lines
perform_transfer-For (update_request c id payload) db h =
    update-For (Conserved db) db c id payload λ tenant transfer origin.
      updated-Then tenant db IsKept (Conserved db tenant) (IsKept-moves tenant) IsKept-fresh
        (commit-IsKept db.stock) refl c transfer origin payload.lines
perform_transfer-For (action_request c id payload) db h =
    action-For (Conserved db) db c id payload λ tenant t.
      act-Then_kept tenant db IsKept (Conserved db tenant) (IsKept-moves tenant) IsKept-fresh
        (commit-IsKept db.stock) refl c t payload.action h

-- A request that succeeds leaves the units of every tenant but its token's as they were.
pub perform_transfer-isolates :
    (r : TransferRequest) (db : TransferDb)
    → Ensures
        (λ db'.
          (tenant : ℕ)
          → (token_of r).tenant_id ≡ some tenant
          → foreign tenant db'.stock ≡ foreign tenant db.stock)
        (perform_transfer r db)
unfolding perform_transfer
perform_transfer-isolates (create_request c payload) db =
    create-For (Isolated db) db c payload λ tenant.
      created-Then tenant db (IsLocal tenant) (Isolated db tenant) (IsLocal-moves tenant)
        (IsLocal-fresh tenant) (commit-IsLocal tenant db.stock) refl payload.origin_store_id
        payload.lines
perform_transfer-isolates (update_request c id payload) db =
    update-For (Isolated db) db c id payload λ tenant transfer origin.
      updated-Then tenant db (IsLocal tenant) (Isolated db tenant) (IsLocal-moves tenant)
        (IsLocal-fresh tenant) (commit-IsLocal tenant db.stock) refl c transfer origin payload.lines
perform_transfer-isolates (action_request c id payload) db =
    action-For (Isolated db) db c id payload λ tenant t.
      act-Then tenant db (IsLocal tenant) (Isolated db tenant) (IsLocal-moves tenant)
        (IsLocal-fresh tenant) (commit-IsLocal tenant db.stock) refl c t (IsLocal-deletion tenant)
        payload.action

-- A request that succeeds and does not write stock off keeps all units, in their order: the table holds
-- the same ids with the same tenant, SKU, EPC, attributes and status, and at most their store, location,
-- pool and vendibility differ.
pub perform_transfer-conserves :
    (r : TransferRequest) (db : TransferDb)
    → RequestLosesNothing r
    → (tenant : ℕ) → (token_of r).tenant_id ≡ some tenant
    → Ensures (λ db'. map essence db'.stock ≡ map essence db.stock) (perform_transfer r db)
perform_transfer-conserves r db h tenant e =
    Ensures-map _ _ (perform_transfer r db) (λ db' q. q tenant e) (perform_transfer-For r db h)
