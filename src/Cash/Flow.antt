-- ===== src/Cash/Flow.antt =====
-- Cash that sales, refunds and vouchers move: `_record_cash_movement` and
-- `_require_open_cash_session` of app/aris3/routers/pos_sales.py with their calls, and the vouchers'
-- use of them in app/aris3/routers/pos_advances.py.
use aris_cloud.Prelude.{
  ℕ, Bool, true, false, ◌&&◌, not, Option, none, some, List, [], ◌∷◌, ◌==◌, is_some, first, select,
  if◌then◌else◌,
}
use aris_cloud.Prelude.Int.{ℤ, pos, ◌+ℤ◌, ◌-ℤ◌, leb_ℤ, ltb_ℤ}
use aris_cloud.Prelude.Result.{
  Result, ok, ◌>>=◌, ◌>>◌, raise_if, or_raise, validation_error, business_conflict,
}
use aris_cloud.Cash.Db.{
  MovementType, CashSession, CashMovement, CashDb, Caller, is_opened, ensure_not_closed,
  ensure_non_negative_balance, latest,
}
use aris_cloud.Cash.Session.{write}

-- `action in {"SALE", "CASH_IN"}`
abbrev pub adds_cash : MovementType → Bool
adds_cash MovementType.sale = true
adds_cash MovementType.cash_in = true
adds_cash _ = false

abbrev pub flow_movement : Caller → CashSession → ℕ → MovementType → ℤ → ℤ → CashMovement
flow_movement c s sale_id action amount expected_after = record {
  tenant_id = c.tenant_id;
  store_id = c.store_id;
  cash_session_id = some s.id;
  cashier_user_id = s.cashier_user_id;
  actor_user_id = c.user_id;
  business_date = s.business_date;
  sale_id = some sale_id;
  action = action;
  amount = amount;
  expected_balance_before = some s.expected_cash;
  expected_balance_after = some expected_after;
  occurred_at = c.now;
}

unfoldable pub record_cash_movement :
    Caller → CashSession → ℕ → MovementType → ℤ → CashDb → Result CashDb
unfolding ensure_not_closed ensure_non_negative_balance
record_cash_movement c s sale_id action amount db = do
  raise_if (leb_ℤ amount (pos 0)) validation_error
  ensure_not_closed db c.tenant_id c.store_id s.business_date
  let after = if adds_cash action then s.expected_cash +ℤ amount else s.expected_cash -ℤ amount
  ensure_non_negative_balance after
  ok (write db (record s { expected_cash = after }) (flow_movement c s sale_id action amount after))

-- Open sessions of a store; with a cashier, those of the cashier.
abbrev pub is_open_in : ℕ → ℕ → CashSession → Bool
is_open_in t s row = row.tenant_id == t && row.store_id == s && is_opened row.status

abbrev pub is_open_of : ℕ → ℕ → ℕ → CashSession → Bool
is_open_of t s cashier row =
    row.tenant_id == t
    && row.store_id == s
    && row.cashier_user_id == cashier
    && is_opened row.status

-- `if len(fallback_sessions) == 1`
unfoldable pub only : List CashSession → Option CashSession
only [] = none
only (s ∷ []) = some s
only (s ∷ r ∷ rows) = none

-- The cashier's open session, or else the one open session of the store.
unfoldable pub require_open_cash_session : Caller → CashDb → Result CashSession
unfolding only
require_open_cash_session c db =
    elim (first (select (is_open_of c.tenant_id c.store_id c.user_id) db.sessions)) [
      | some s ↦ ok s
      | none ↦
          or_raise (only (select (is_open_in c.tenant_id c.store_id) db.sessions)) business_conflict
    ]

-- `_active_session` of the vouchers; rows opened at one time come by their creation.
unfoldable pub active_session : Caller → CashDb → Option CashSession
unfolding latest
active_session c db = latest (
    select (λ row. is_open_of c.tenant_id c.store_id c.user_id row && not (is_some row.closed_at))
      db.sessions)

-- Checkout: the session is required when there is cash, and the drawer takes the cash less the
-- change.
unfoldable pub checkout_cash : Caller → ℕ → ℤ → ℤ → CashDb → Result CashDb
unfolding require_open_cash_session record_cash_movement
checkout_cash c sale_id cash_total change_due db = if leb_ℤ cash_total (pos 0) then ok db else do
  s ← require_open_cash_session c db
  let net_cash_in = cash_total -ℤ change_due
  if leb_ℤ net_cash_in (pos 0)
      then ok db
      else record_cash_movement c s sale_id MovementType.sale net_cash_in db

-- A refund in cash.
unfoldable pub refund_cash : Caller → ℕ → ℤ → CashDb → Result CashDb
unfolding require_open_cash_session record_cash_movement
refund_cash c sale_id cash_total db = if leb_ℤ cash_total (pos 0) then ok db else do
  s ← require_open_cash_session c db
  record_cash_movement c s sale_id MovementType.cash_out_refund cash_total db

-- An exchange: with a positive difference the customer pays, and change is given; with a negative one
-- the drawer pays back.
abbrev pub exchange_amount : ℤ → ℤ → ℤ → ℤ
exchange_amount delta cash_total change_due =
    if ltb_ℤ (pos 0) delta then cash_total -ℤ change_due else cash_total

abbrev pub exchange_action : ℤ → MovementType
exchange_action delta =
    if ltb_ℤ delta (pos 0) then MovementType.cash_out_refund else MovementType.sale

unfoldable pub exchange_cash : Caller → ℕ → ℤ → ℤ → ℤ → CashDb → Result CashDb
unfolding require_open_cash_session record_cash_movement
exchange_cash c sale_id delta cash_total change_due db =
    if leb_ℤ cash_total (pos 0) then ok db else do
      s ← require_open_cash_session c db
      let movement_amount = exchange_amount delta cash_total change_due
      if leb_ℤ movement_amount (pos 0)
          then ok db
          else record_cash_movement c s sale_id (exchange_action delta) movement_amount db

-- A voucher sold for cash, and a voucher paid back in cash.
unfoldable pub issue_voucher_cash : Caller → ℕ → ℤ → CashDb → Result CashDb
unfolding active_session record_cash_movement
issue_voucher_cash c voucher_id amount db = do
  s ← or_raise (active_session c db) business_conflict
  record_cash_movement c s voucher_id MovementType.cash_in amount db

unfoldable pub refund_voucher_cash : Caller → ℕ → ℤ → CashDb → Result CashDb
unfolding active_session record_cash_movement
refund_voucher_cash c voucher_id amount db = do
  s ← or_raise (active_session c db) business_conflict
  record_cash_movement c s voucher_id MovementType.cash_out amount db

-- `_record_non_cash_voucher_movement`, on the date of the call: it names no session.
unfoldable pub record_non_cash_voucher_movement : Caller → ℕ → ℕ → ℕ → ℤ → CashDb → CashDb
record_non_cash_voucher_movement c today action voucher_id amount db = record db {
  movements =
      record {
        tenant_id = c.tenant_id;
        store_id = c.store_id;
        cash_session_id = none;
        cashier_user_id = c.user_id;
        actor_user_id = c.user_id;
        business_date = today;
        sale_id = some voucher_id;
        action = MovementType.voucher action;
        amount = amount;
        expected_balance_before = some (pos 0);
        expected_balance_after = some (pos 0);
        occurred_at = c.now;
      }
      ∷ db.movements;
}
