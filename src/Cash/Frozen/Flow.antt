-- ===== src/Cash/Frozen/Flow.antt =====
-- The sessions' actions, sales, vouchers and closes of days leave the reconciliation of a closed day.
use aris_cloud.Prelude.{
  if◌then◌else◌, is_some, not, ℕ, ◌≡◌, true, false, Option, none, some, arith, select, is_empty,
}
use aris_cloud.Prelude.Int.{◌+ℤ◌, ℤ, pos, ◌-ℤ◌, leb_ℤ}
use aris_cloud.Prelude.Result.{
  ok, raise_if, or_raise, Ensures, Ensures-bind, Ensures-if, validation_error, business_conflict,
}
use aris_cloud.Prelude.Text.{Text}
use aris_cloud.Cash.Db.{
  MovementType, CashSession, CashDb, Caller, is_opened, is_day_closed, ensure_not_closed,
  ensure_positive_amount, ensure_non_negative_balance, open_session_query,
}
use aris_cloud.Cash.Session.{
  SessionAction, open_action, cash_in_action, cash_out_action, close_action, other_action,
  open_cash_session, act_on_session, act_on_open, cash_session_action,
}
use aris_cloud.Cash.Flow.{
  adds_cash, flow_movement, require_open_cash_session, active_session, record_cash_movement,
  checkout_cash, refund_cash, exchange_cash, exchange_action, exchange_amount, issue_voucher_cash,
  refund_voucher_cash, record_non_cash_voucher_movement,
}
use aris_cloud.Cash.DayClose.{
  Sums, day_close_movement, reconciliation_rollup, DayClosePayload, close_day, closed_day,
  check_open_sessions, is_open_on,
}
use aris_cloud.Cash.Frozen.{
  IsFrozen, silent_voucher, silent_close, rollup-silent, unchanged, write-IsFrozen, not_closed,
}

module _ (sums : Sums) (t s d : ℕ) (db : CashDb)
    (was_closed : is_day_closed db.day_closes t s d ≡ true) where
  abbrev Frozen : CashDb → Type 0
  Frozen = IsFrozen sums t s d db

  pub open-IsFrozen :
      (c : Caller) (amount : Option ℤ) (date timezone : Option ℕ)
      → Ensures Frozen (open_cash_session c amount date timezone db)
  unfolding open_cash_session
  open-IsFrozen c amount date timezone =
      Ensures-bind Frozen (ensure_positive_amount amount) _ λ value _.
        Ensures-bind Frozen (or_raise date validation_error) _ λ day _.
          Ensures-bind Frozen (or_raise timezone validation_error) _ λ _ _.
            Ensures-bind Frozen (ensure_not_closed db c.tenant_id c.store_id day) _ λ _ h.
              Ensures-bind Frozen
                (raise_if (is_some (open_session_query db c.tenant_id c.store_id c.user_id))
                  business_conflict)
                _
                λ _ _.
                  write-IsFrozen sums t s d db was_closed _ _
                    (not_closed sums t s d db was_closed c.tenant_id c.store_id day h)

  pub act_on_session-IsFrozen :
      (c : Caller) (x : CashSession) (action : SessionAction)
      → is_day_closed db.day_closes c.tenant_id c.store_id x.business_date ≡ false
      → Ensures Frozen (act_on_session c action x db)
  unfolding act_on_session
  act_on_session-IsFrozen c x (cash_in_action amount) h =
      Ensures-bind Frozen (ensure_positive_amount amount) _
        λ v _. write-IsFrozen sums t s d db was_closed _ _ h
  act_on_session-IsFrozen c x (cash_out_action amount) h =
      Ensures-bind Frozen (ensure_positive_amount amount) _ λ v _.
        Ensures-bind Frozen (ensure_non_negative_balance (x.expected_cash -ℤ v)) _
          λ _ _. write-IsFrozen sums t s d db was_closed _ _ h
  act_on_session-IsFrozen c x (close_action none) h = tt
  act_on_session-IsFrozen c x (close_action (some counted)) h =
      write-IsFrozen sums t s d db was_closed _ _ h
  act_on_session-IsFrozen c x (open_action a b z) h = tt
  act_on_session-IsFrozen c x other_action h = tt

  pub session_action-IsFrozen :
      (c : Caller) (action : SessionAction) → Ensures Frozen (cash_session_action c action db)
  unfolding cash_session_action act_on_open
  session_action-IsFrozen c (open_action a z b) = open-IsFrozen c a z b
  session_action-IsFrozen c action =
      Ensures-bind Frozen
        (or_raise (open_session_query db c.tenant_id c.store_id c.user_id) business_conflict) _
        λ x _.
          Ensures-bind Frozen (ensure_not_closed db c.tenant_id c.store_id x.business_date) _ λ _ h.
            Ensures-bind Frozen (raise_if (not (is_opened x.status)) validation_error) _ λ _ _.
              act_on_session-IsFrozen c x action
                (not_closed sums t s d db was_closed c.tenant_id c.store_id x.business_date h)

  pub record-IsFrozen :
      (c : Caller) (x : CashSession) (id : ℕ) (action : MovementType) (amount : ℤ)
      → Ensures Frozen (record_cash_movement c x id action amount db)
  unfolding record_cash_movement
  record-IsFrozen c x id action amount =
      let after =
        if adds_cash action then x.expected_cash +ℤ amount else x.expected_cash -ℤ amount in
      Ensures-bind Frozen (raise_if (leb_ℤ amount (pos 0)) validation_error) _ λ _ _.
        Ensures-bind Frozen (ensure_not_closed db c.tenant_id c.store_id x.business_date) _ λ _ h.
          Ensures-bind Frozen (ensure_non_negative_balance after) _ λ _ _.
            write-IsFrozen sums t s d db was_closed (flow_movement c x id action amount after) _
              (not_closed sums t s d db was_closed c.tenant_id c.store_id x.business_date h)

  pub checkout-IsFrozen :
      (c : Caller) (id : ℕ) (cash change : ℤ) → Ensures Frozen (checkout_cash c id cash change db)
  unfolding checkout_cash
  checkout-IsFrozen c id cash change =
      Ensures-if Frozen (leb_ℤ cash (pos 0)) _ _ (λ _. unchanged sums t s d db was_closed)
        λ _. Ensures-bind Frozen (require_open_cash_session c db) _ λ x _.
          Ensures-if Frozen (leb_ℤ (cash -ℤ change) (pos 0)) _ _
            (λ _. unchanged sums t s d db was_closed)
            λ _. record-IsFrozen c x id MovementType.sale (cash -ℤ change)

  pub refund-IsFrozen : (c : Caller) (id : ℕ) (cash : ℤ) → Ensures Frozen (refund_cash c id cash db)
  unfolding refund_cash
  refund-IsFrozen c id cash =
      Ensures-if Frozen (leb_ℤ cash (pos 0)) _ _ (λ _. unchanged sums t s d db was_closed)
        λ _.
          Ensures-bind Frozen (require_open_cash_session c db) _
            λ x _. record-IsFrozen c x id MovementType.cash_out_refund cash

  pub exchange-IsFrozen :
      (c : Caller) (id : ℕ) (delta cash change : ℤ)
      → Ensures Frozen (exchange_cash c id delta cash change db)
  unfolding exchange_cash
  exchange-IsFrozen c id delta cash change =
      let amount = exchange_amount delta cash change in
      Ensures-if Frozen (leb_ℤ cash (pos 0)) _ _ (λ _. unchanged sums t s d db was_closed)
        λ _. Ensures-bind Frozen (require_open_cash_session c db) _ λ x _.
          Ensures-if Frozen (leb_ℤ amount (pos 0)) _ _ (λ _. unchanged sums t s d db was_closed)
            λ _. record-IsFrozen c x id (exchange_action delta) amount

  pub vouchers-IsFrozen :
      (c : Caller) (id : ℕ) (amount : ℤ)
      → Ensures Frozen (issue_voucher_cash c id amount db)
        × Ensures Frozen (refund_voucher_cash c id amount db)
  unfolding issue_voucher_cash refund_voucher_cash
  vouchers-IsFrozen c id amount = (
    Ensures-bind Frozen (or_raise (active_session c db) business_conflict) _
        λ x _. record-IsFrozen c x id MovementType.cash_in amount,
    Ensures-bind Frozen (or_raise (active_session c db) business_conflict) _
        λ x _. record-IsFrozen c x id MovementType.cash_out amount,
  )

  pub non_cash-IsFrozen :
      (c : Caller) (today action id : ℕ) (amount : ℤ)
      → Frozen (record_non_cash_voucher_movement c today action id amount db)
  unfolding record_non_cash_voucher_movement
  non_cash-IsFrozen c today action id amount = record {
    same_rollup = rollup-silent sums t s d _ db (silent_voucher action);
    still_closed = was_closed;
  }

  pub closed_day-IsFrozen : (c : Caller) (p : DayClosePayload) → Frozen (closed_day sums c p db)
  unfolding is_day_closed reconciliation_rollup
  closed_day-IsFrozen c p = record {
    same_rollup = rollup-silent sums t s d (day_close_movement c p.business_date) db silent_close;
    still_closed = ground arith;
  }

  pub close_day-IsFrozen :
      (c : Caller) (role : Text) (p : DayClosePayload) → Ensures Frozen (close_day sums c role p db)
  unfolding close_day
  close_day-IsFrozen c role p =
      let date = p.business_date in
      let some_open =
        not (is_empty (select (is_open_on c.tenant_id c.store_id date) db.sessions)) in
      Ensures-bind Frozen
        (raise_if (is_day_closed db.day_closes c.tenant_id c.store_id date) validation_error) _
        λ _ _.
          Ensures-bind Frozen (check_open_sessions role p some_open)
            (λ _. ok (closed_day sums c p db)) λ _ _. closed_day-IsFrozen c p
