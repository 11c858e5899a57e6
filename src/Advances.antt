-- ===== src/Advances.antt =====
-- Advances and gift cards: app/aris3/services/pos_advances.py, the handlers of
-- app/aris3/routers/pos_advances.py, and the use of an advance at a checkout
-- (app/aris3/routers/pos_sales.py). The ids of the cash movements that a row names, the drawer events
-- and the payloads of events are left out.
pub mod Handlers
pub mod Final
pub mod Sweep
use aris_cloud.Prelude.{
  ℕ, suc, ◌+◌, ◌-◌, ◌≤◌, ◌<◌, ◌↔◌, ◌∙◌, ap, inr, inl, sym, Bool-cases, refl, ◌≡◌, ◌≢◌, Bool, true,
  false, not, ◌&&◌, ◌||◌, List, [], ◌∷◌, ◌++◌, map, if◌then◌else◌, is_empty, arith, All, any,
  select, first, length, ◌⊎◌, Option, none, some, ◌==◌, ltb, leb, max, is_some, is_just, or_else,
  first_some, ==_iff, Option-cases,
}
use aris_cloud.Prelude.Int.{
  ℤ, pos, negsuc, ◌+ℤ◌, ◌-ℤ◌, ◌≤ℤ◌, leb_ℤ, ltb_ℤ, int_laws, +ℤ_parts, -ℤ_parts,
}
use aris_cloud.Prelude.Result.{
  Result, ok, err, ◌>>=◌, ◌>>◌, raise_if, or_raise, Ensures, Ensures-bind, Ensures-ok, Ensures-if,
  Ensures-raise_if, AppError, validation_error, business_conflict, resource_not_found,
  permission_denied, idempotency_key_required, idempotency_request_in_progress,
  idempotency_key_reused_with_different_payload,
}

pub data AdvanceStatus : Type 0 where
  active consumed refunded expired : AdvanceStatus

pub data VoucherType : Type 0 where
  advance gift_card : VoucherType

pub record PosAdvance : Type 0 where
  pub id : ℕ
  pub tenant_id : ℕ
  pub store_id : ℕ
  pub advance_number : ℕ
  pub barcode_value : ℕ
  pub voucher_type : VoucherType
  pub issued_amount : ℤ
  pub issued_at : ℕ
  pub expires_at : ℕ
  pub status : AdvanceStatus
  pub consumed_sale_id : Option ℕ
  pub refunded_at : Option ℕ
  pub expired_at : Option ℕ

pub data EventAction : Type 0 where
  issued consumed refunded expired validated : EventAction

pub record PosAdvanceEvent : Type 0 where
  pub advance_id : ℕ
  pub action : EventAction
  pub created_at : ℕ

abbrev pub advance_event : PosAdvance → EventAction → ℕ → PosAdvanceEvent
advance_event row action now = record { advance_id = row.id; action = action; created_at = now }

abbrev pub is_active : AdvanceStatus → Bool
is_active AdvanceStatus.active = true
is_active _ = false

-- `TERMINAL_STATUSES`
abbrev pub is_terminal : AdvanceStatus → Bool
is_terminal AdvanceStatus.active = false
is_terminal _ = true

abbrev pub is_due : ℕ → PosAdvance → Bool
is_due now row = is_active row.status && leb row.expires_at now

unfoldable pub expire_advance_if_needed : ℕ → PosAdvance → PosAdvance × List PosAdvanceEvent
expire_advance_if_needed now row =
    if is_due now row
    then (
      record row { status = AdvanceStatus.expired; expired_at = some now },
      advance_event row EventAction.expired now ∷ [],
    )
    else (row, [])

-- The rows that the query of the sweep selects, each expired where it stands.
unfoldable pub sweep_expired_advances :
    ℕ → ℕ → ℕ → List PosAdvance → List PosAdvance × List PosAdvanceEvent
unfolding expire_advance_if_needed
sweep_expired_advances t s now [] = ([], [])
sweep_expired_advances t s now (row ∷ rows) =
    let rest = sweep_expired_advances t s now rows in
    let swept = expire_advance_if_needed now row in
    if row.tenant_id == t && row.store_id == s && is_due now row
    then (swept.0 ∷ rest.0, swept.1 ++ rest.1)
    else (row ∷ rest.0, rest.1)

unfoldable pub find_advance : ℕ → List PosAdvance → Option PosAdvance
find_advance id [] = none
find_advance id (row ∷ rows) = if row.id == id then some row else find_advance id rows

-- The changes of a loaded row, written to the table.
unfoldable pub put_advance : PosAdvance → List PosAdvance → List PosAdvance
put_advance r [] = []
put_advance r (row ∷ rows) =
    let rest = put_advance r rows in if row.id == r.id then r ∷ rows else row ∷ rest

-- `coalesce(max(advance_number), 0)` over the rows of the store.
unfoldable pub last_number : ℕ → ℕ → List PosAdvance → ℕ
last_number t s [] = 0
last_number t s (row ∷ rows) =
    let rest = last_number t s rows in
    if row.tenant_id == t && row.store_id == s then max row.advance_number rest else rest
