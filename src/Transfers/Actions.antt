-- ===== src/Transfers/Actions.antt =====
-- `transfer_actions` of app/aris3/routers/transfers.py, and the requests that follow one another.
-- Idempotency stands before the action (the module Idempotency).
pub mod Dispatch
pub mod Receive
pub mod Shortages
use aris_cloud.Prelude.{
  ℕ, suc, ◌+◌, ◌-◌, ◌≤◌, ◌<◌, ◌↔◌, ◌∙◌, ap, inr, inl, sym, Bool-cases, refl, ◌≡◌, ◌≢◌, Bool, true,
  false, not, ◌&&◌, ◌||◌, List, [], ◌∷◌, ◌++◌, map, if◌then◌else◌, is_empty, arith, All, any,
  select, first, length, ◌⊎◌, Option, none, some, ◌==◌, ltb, leb, max, is_some, is_just, or_else,
  first_some, ==_iff, Option-cases,
}
use aris_cloud.Prelude.Int.{
  ℤ, pos, negsuc, ◌+ℤ◌, ◌-ℤ◌, ◌≤ℤ◌, leb_ℤ, ltb_ℤ, int_laws, +ℤ_parts, -ℤ_parts, eq_of_parts,
}
use aris_cloud.Prelude.Result.{
  Result, ok, err, ◌>>=◌, ◌>>◌, raise_if, or_raise, Ensures, Ensures-bind, Ensures-ok, Ensures-if,
  Ensures-raise_if, AppError, validation_error, business_conflict, resource_not_found,
  permission_denied, idempotency_key_required, idempotency_request_in_progress,
  idempotency_key_reused_with_different_payload,
}
use aris_cloud.Prelude.Text.{Text}
use aris_cloud.Transfers.{
  Transfer, TransferDb, TransferAction, dispatch_action, receive_action, report_shortages_action,
  resolve_shortages_action, cancel_action, other_action, Caller, resolve_transfer_tenant,
  find_transfer,
}
use aris_cloud.Transfers.Drafts.{
  TransferCreateRequest, TransferUpdateRequest, require_transaction_id, create_transfer,
  update_transfer,
}
use aris_cloud.Transfers.Actions.Dispatch.{dispatch_transfer, cancel_transfer}
use aris_cloud.Transfers.Actions.Receive.{receive_transfer}
use aris_cloud.Transfers.Actions.Shortages.{report_shortages, resolve_shortages}

pub record TransferActionRequest : Type 0 where
  pub transaction_id : Option Text
  pub tenant_id : Option ℕ
  pub action : TransferAction

-- The branches on `action`, for the transfer that was found.
unfoldable pub act_on_transfer :
    Caller → ℕ → TransferAction → Transfer → TransferDb → Result TransferDb
unfolding dispatch_transfer receive_transfer report_shortages resolve_shortages cancel_transfer
act_on_transfer c tenant dispatch_action = dispatch_transfer c tenant
act_on_transfer c tenant (receive_action lines) = receive_transfer c tenant lines
act_on_transfer c tenant (report_shortages_action shortages) = report_shortages c tenant shortages
act_on_transfer c tenant (resolve_shortages_action resolution) =
    resolve_shortages c tenant resolution
act_on_transfer c tenant cancel_action = cancel_transfer c tenant
act_on_transfer c tenant other_action = λ transfer db. err validation_error

unfoldable pub transfer_actions :
    Caller → ℕ → TransferActionRequest → TransferDb → Result TransferDb
unfolding require_transaction_id resolve_transfer_tenant find_transfer act_on_transfer
transfer_actions c transfer_id payload db = do
  require_transaction_id payload.transaction_id
  tenant ← resolve_transfer_tenant c.token payload.tenant_id
  transfer ← or_raise (find_transfer tenant transfer_id db.transfers) validation_error
  act_on_transfer c tenant payload.action transfer db

-- A request that changes transfers, the caller with it.
pub data TransferRequest : Type 0 where
  create_request : Caller → TransferCreateRequest → TransferRequest
  update_request : Caller → ℕ → TransferUpdateRequest → TransferRequest
  action_request : Caller → ℕ → TransferActionRequest → TransferRequest

unfoldable pub perform_transfer : TransferRequest → TransferDb → Result TransferDb
unfolding create_transfer update_transfer transfer_actions
perform_transfer (create_request c payload) db = create_transfer c payload db
perform_transfer (update_request c id payload) db = update_transfer c id payload db
perform_transfer (action_request c id payload) db = transfer_actions c id payload db
