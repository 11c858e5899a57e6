-- ===== src/Transfers/Invariant.antt =====
-- The invariant on the movements of all transfers: the actions of app/aris3/routers/transfers.py keep
-- each line's quantities within bounds, in whatever order they come.
pub mod Actions
use aris_cloud.Prelude.{
  ℕ, suc, ◌+◌, ◌-◌, ◌≤◌, ◌<◌, ◌↔◌, ◌∙◌, ap, inr, inl, sym, Bool-cases, refl, ◌≡◌, ◌≢◌, Bool, true,
  false, not, ◌&&◌, ◌||◌, List, [], ◌∷◌, ◌++◌, map, if◌then◌else◌, is_empty, arith, All, any,
  select, first, length, ◌⊎◌, Option, none, some, ◌==◌, ltb, leb, max, is_some, is_just, or_else,
  first_some, ==_iff, Option-cases,
}
use aris_cloud.Prelude.Int.{
  ℤ, pos, negsuc, ◌+ℤ◌, ◌-ℤ◌, ◌≤ℤ◌, leb_ℤ, ltb_ℤ, int_laws, +ℤ_parts, -ℤ_parts, eq_of_parts,
}
use aris_cloud.Prelude.Result.{
  Result, ok, err, ◌>>=◌, ◌>>◌, raise_if, or_raise, Ensures, Ensures-bind, Ensures-map,
  or_raise-some, Ensures-ok, Ensures-if, Ensures-raise_if, AppError, validation_error,
  business_conflict, resource_not_found, permission_denied, idempotency_key_required,
  idempotency_request_in_progress, idempotency_key_reused_with_different_payload,
}
use aris_cloud.Prelude.{
  ℕ, suc, ◌+◌, ◌-◌, ◌≤◌, ◌<◌, ◌↔◌, ◌∙◌, ap, inr, inl, sym, Bool-cases, refl, ◌≡◌, ◌≢◌, Bool, true,
  false, not, ◌&&◌, ◌||◌, List, [], ◌∷◌, ◌++◌, map, if◌then◌else◌, is_empty, arith, All, any,
  select, first, length, ◌⊎◌, Option, none, some, ◌==◌, ltb, leb, max, is_some, is_just, or_else,
  first_some, ==_iff, Option-cases,
}
use aris_cloud.Prelude.Int.{
  ℤ, pos, negsuc, ◌+ℤ◌, ◌-ℤ◌, ◌≤ℤ◌, leb_ℤ, ltb_ℤ, int_laws, +ℤ_parts, -ℤ_parts, eq_of_parts,
}
use aris_cloud.Prelude.Result.{
  Result, ok, err, ◌>>=◌, ◌>>◌, raise_if, or_raise, Ensures, Ensures-bind, Ensures-map,
  or_raise-some, Ensures-ok, Ensures-if, Ensures-raise_if, AppError, validation_error,
  business_conflict, resource_not_found, permission_denied, idempotency_key_required,
  idempotency_request_in_progress, idempotency_key_reused_with_different_payload,
}
use mathlib.Core.Path.{subst}
use aris_cloud.Transfers.{
  Transfer, TransferLine, TransferMovement, MovementAction, dispatch, receive, shortage_reported,
  TransferReceiveLine, TransferShortageLine, ResolutionType, found_and_resend, lost_in_route,
  TransferShortageResolution, TransferDb, Caller, TransferAction, dispatch_action, receive_action,
  report_shortages_action, resolve_shortages_action, cancel_action, other_action, get_lines,
  is_draft, find_transfer, resolve_transfer_tenant,
}
use aris_cloud.Transfers.Stock.{begin}
use aris_cloud.Transfers.Lines.{normalize_transfer_lines}
use aris_cloud.Transfers.Rules.{dispatch_rule, cancel_rule, receive_rule, report_rule, resolve_rule}
use aris_cloud.Transfers.Drafts.{
  TransferCreateRequest, TransferUpdateRequest, create_transfer, update_transfer,
  require_transaction_id, check_stores, update_lines,
}
use aris_cloud.Transfers.Totals.{
  LineTotals, MovementTotals, bump, totals_of, get_movement_totals, outstanding, shortage_remaining,
}
use aris_cloud.Transfers.Sums.{moved, IsOf, totals_of-moved, totals_of-others}
use aris_cloud.Transfers.Within.{
  IsWithin, IsDistinct, IsDistinct-map, line_of, moved-Fits, receive_each-Fits, report_each-Fits,
  resolve_each-Fits,
}
use aris_cloud.Transfers.Actions.{
  TransferRequest, create_request, update_request, action_request, act_on_transfer,
  transfer_actions, perform_transfer,
}
use aris_cloud.Transfers.Actions.Dispatch.{dispatch_movement, dispatch_transfer, cancel_transfer}
use aris_cloud.Transfers.Actions.Receive.{receive_movement, receive_transfer}
use aris_cloud.Transfers.Actions.Shortages.{
  shortage_movement, resolved_by, report_shortages, resolve_shortages,
}
use aris_cloud.Transfers.Invariant.Actions.{AreWithin, NamesOnce, act-stays}

abbrev pub RequestNamesOnce : TransferRequest → Type 0
RequestNamesOnce (action_request c id payload) = NamesOnce payload.action
RequestNamesOnce _ = Unit

create-movements :
    (c : Caller) (payload : TransferCreateRequest) (db : TransferDb)
    → Ensures (λ db'. db'.movements ≡ db.movements) (create_transfer c payload db)
unfolding create_transfer
create-movements c payload db =
    let P = λ (db' : TransferDb). db'.movements ≡ db.movements in
    Ensures-bind P (require_transaction_id payload.transaction_id) _ λ _ _.
      Ensures-bind P (resolve_transfer_tenant c.token payload.tenant_id) _ λ tenant _.
        Ensures-bind P
          (check_stores c tenant payload.origin_store_id payload.destination_store_id db) _
          λ _ _. Ensures-raise_if P (is_empty payload.lines) validation_error _ λ _.
            Ensures-bind P
              (normalize_transfer_lines tenant payload.origin_store_id none db [] payload.lines
                (begin db.stock))
              _ λ done _. refl

update-movements :
    (c : Caller) (id : ℕ) (payload : TransferUpdateRequest) (db : TransferDb)
    → Ensures (λ db'. db'.movements ≡ db.movements) (update_transfer c id payload db)
unfolding update_transfer
update-movements c id payload db =
    let P = λ (db' : TransferDb). db'.movements ≡ db.movements in
    Ensures-bind P (require_transaction_id payload.transaction_id) _ λ _ _.
      Ensures-bind P (resolve_transfer_tenant c.token payload.tenant_id) _ λ tenant _.
        Ensures-bind P (or_raise (find_transfer tenant id db.transfers) validation_error) _ λ u _.
          Ensures-raise_if P (not (is_draft u.status)) validation_error _ λ _.
            let origin = or_else payload.origin_store_id u.origin_store_id in
            let destination = or_else payload.destination_store_id u.destination_store_id in
            Ensures-bind P (check_stores c tenant origin destination db) _ λ _ _.
              Ensures-bind P (update_lines c tenant u.id origin payload.lines db) _ λ done _. refl

perform-AreWithin :
    (r : TransferRequest) (db : TransferDb)
    → AreWithin db.movements
    → RequestNamesOnce r
    → Ensures (λ db'. AreWithin db'.movements) (perform_transfer r db)
unfolding perform_transfer transfer_actions
perform-AreWithin (create_request c payload) db within once =
    Ensures-map _ _ (create_transfer c payload db) (λ db' e. subst AreWithin (sym e) within)
      (create-movements c payload db)
perform-AreWithin (update_request c id payload) db within once =
    Ensures-map _ _ (update_transfer c id payload db) (λ db' e. subst AreWithin (sym e) within)
      (update-movements c id payload db)
perform-AreWithin (action_request c id payload) db within once =
    let P = λ (db' : TransferDb). AreWithin db'.movements in
    Ensures-bind P (require_transaction_id payload.transaction_id) _ λ _ _.
      Ensures-bind P (resolve_transfer_tenant c.token payload.tenant_id) _ λ tenant _.
        Ensures-bind P (or_raise (find_transfer tenant id db.transfers) validation_error) _
          λ t _. act-stays c tenant t db within payload.action once

-- The tables that requests make, each of which names a line once, from tables without a movement.
pub data Arises : TransferDb → Type 0 where
  start : {db : TransferDb} → db.movements ≡ [] → Arises db
  next :
      {db db' : TransferDb} (r : TransferRequest)
      → Arises db
      → RequestNamesOnce r
      → perform_transfer r db ≡ ok db'
      → Arises db'

nothing-AreWithin : AreWithin []
unfolding get_movement_totals totals_of
nothing-AreWithin transfer line = record {
  received_most = ground arith;
  reported_most = ground arith;
  resolved_most = ground arith;
}

-- In all tables that requests make which name a line once each, for every transfer and every line: no
-- more was received than dispatched, no more was reported short than dispatched, and no more was
-- resolved, as found or as lost, than was reported.
pub Arises-AreWithin : {db : TransferDb} → Arises db → AreWithin db.movements
Arises-AreWithin (start e) = subst AreWithin (sym e) nothing-AreWithin
Arises-AreWithin (next {db} {db'} r before once e) =
    Ensures-ok (λ x. AreWithin x.movements) (perform_transfer r db)
      (perform-AreWithin r db (Arises-AreWithin before) once) e
