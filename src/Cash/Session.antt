-- ===== src/Cash/Session.antt =====
-- `cash_session_action` of app/aris3/routers/pos_cash.py, after the resolution of the scope and the
-- idempotency check: OPEN, CASH_IN, CASH_OUT and CLOSE.
use aris_cloud.Prelude.{ℕ, not, Option, none, some, ◌∷◌, is_some}
use aris_cloud.Prelude.Int.{ℤ, pos, ◌+ℤ◌, ◌-ℤ◌}
use aris_cloud.Prelude.Result.{
  Result, ok, err, ◌>>=◌, ◌>>◌, raise_if, or_raise, validation_error, business_conflict,
}
use aris_cloud.Cash.Db.{
  opened, closed, MovementType, CashSession, CashMovement, CashDb, Caller, is_opened,
  ensure_not_closed, ensure_positive_amount, ensure_non_negative_balance, open_session_query, put,
}

-- The payload, by its action. A missing or empty time zone is `none`.
pub data SessionAction : Type 0 where
  open_action : Option ℤ → Option ℕ → Option ℕ → SessionAction
  cash_in_action : Option ℤ → SessionAction
  cash_out_action : Option ℤ → SessionAction
  close_action : Option ℤ → SessionAction
  other_action : SessionAction

-- The row of a new session.
abbrev pub opened_session : Caller → ℤ → ℕ → CashSession
opened_session c amount date = record {
  id = c.new_id;
  tenant_id = c.tenant_id;
  store_id = c.store_id;
  cashier_user_id = c.user_id;
  status = opened;
  business_date = date;
  opening_amount = amount;
  expected_cash = amount;
  counted_cash = none;
  difference = none;
  opened_at = c.now;
  closed_at = none;
  created_at = c.now;
}

abbrev pub opening_movement : Caller → ℤ → ℕ → CashMovement
opening_movement c amount date = record {
  tenant_id = c.tenant_id;
  store_id = c.store_id;
  cash_session_id = some c.new_id;
  cashier_user_id = c.user_id;
  actor_user_id = c.user_id;
  business_date = date;
  sale_id = none;
  action = MovementType.open_session;
  amount = amount;
  expected_balance_before = some (pos 0);
  expected_balance_after = some amount;
  occurred_at = c.now;
}

unfoldable pub open_cash_session : Caller → Option ℤ → Option ℕ → Option ℕ → CashDb → Result CashDb
unfolding ensure_positive_amount ensure_not_closed
open_cash_session c opening_amount business_date timezone db = do
  amount ← ensure_positive_amount opening_amount
  date ← or_raise business_date validation_error
  or_raise timezone validation_error
  ensure_not_closed db c.tenant_id c.store_id date
  raise_if (is_some (open_session_query db c.tenant_id c.store_id c.user_id)) business_conflict
  ok (record db {
    sessions = opened_session c amount date ∷ db.sessions;
    movements = opening_movement c amount date ∷ db.movements;
  })

-- The movement that ends each of the other actions.
abbrev pub session_movement : Caller → CashSession → MovementType → ℤ → ℤ → CashMovement
session_movement c s action amount expected_after = record {
  tenant_id = c.tenant_id;
  store_id = c.store_id;
  cash_session_id = some s.id;
  cashier_user_id = s.cashier_user_id;
  actor_user_id = c.user_id;
  business_date = s.business_date;
  sale_id = none;
  action = action;
  amount = amount;
  expected_balance_before = some s.expected_cash;
  expected_balance_after = some expected_after;
  occurred_at = c.now;
}

-- A session's new row, and the movement that tells of it.
abbrev pub write : CashDb → CashSession → CashMovement → CashDb
write db s m = record db { sessions = put s db.sessions; movements = m ∷ db.movements }

unfoldable pub act_on_session : Caller → SessionAction → CashSession → CashDb → Result CashDb
unfolding ensure_positive_amount ensure_non_negative_balance
act_on_session c (cash_in_action amount) s db = do
  value ← ensure_positive_amount amount
  let after = s.expected_cash +ℤ value
  ok (
      write db (record s { expected_cash = after })
        (session_movement c s MovementType.cash_in value after))
act_on_session c (cash_out_action amount) s db = do
  value ← ensure_positive_amount amount
  let after = s.expected_cash -ℤ value
  ensure_non_negative_balance after
  ok (
      write db (record s { expected_cash = after })
        (session_movement c s MovementType.cash_out value after))
act_on_session c (close_action counted_cash) s db = do
  counted ← or_raise counted_cash validation_error
  ok (
      write db
        (record s {
          counted_cash = some counted;
          difference = some (counted -ℤ s.expected_cash);
          status = closed;
          closed_at = some c.now;
        })
        (session_movement c s MovementType.close_session (pos 0) s.expected_cash))
act_on_session c _ s db = err validation_error

unfoldable pub act_on_open : Caller → SessionAction → CashDb → Result CashDb
unfolding act_on_session ensure_not_closed
act_on_open c action db = do
  s ← or_raise (open_session_query db c.tenant_id c.store_id c.user_id) business_conflict
  ensure_not_closed db c.tenant_id c.store_id s.business_date
  raise_if (not (is_opened s.status)) validation_error
  act_on_session c action s db

unfoldable pub cash_session_action : Caller → SessionAction → CashDb → Result CashDb
unfolding open_cash_session act_on_open
cash_session_action c (open_action opening_amount business_date timezone) db =
    open_cash_session c opening_amount business_date timezone db
cash_session_action c action db = act_on_open c action db
