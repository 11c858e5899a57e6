-- ===== src/Cash/Keeps/Requests.antt =====
-- Every request keeps the invariant.
use aris_cloud.Prelude.{is_empty, not, is_some, ℕ, ◌≡◌, refl, Option, none, arith, select}
use aris_cloud.Prelude.Int.{ℤ, pos, ◌-ℤ◌, leb_ℤ, int_laws}
use aris_cloud.Prelude.Result.{
  ok, raise_if, or_raise, Ensures, Ensures-bind, Ensures-if, validation_error, business_conflict,
}
use aris_cloud.Prelude.Text.{Text}
use aris_cloud.Cash.Db.{
  MovementType, CashSession, CashDb, Caller, is_opened, is_day_closed, ensure_not_closed,
  ensure_positive_amount, open_session_query,
}
use aris_cloud.Cash.Session.{
  SessionAction, open_action, open_cash_session, act_on_open, cash_session_action,
}
use aris_cloud.Cash.Flow.{
  require_open_cash_session, active_session, record_cash_movement, checkout_cash, refund_cash,
  exchange_cash, exchange_action, exchange_amount, issue_voucher_cash, refund_voucher_cash,
  record_non_cash_voucher_movement,
}
use aris_cloud.Cash.DayClose.{
  Sums, reconciliation_rollup, closed_day, is_open_on, check_open_sessions, DayClosePayload,
  close_day,
}
use aris_cloud.Cash.Rows.{find}
use aris_cloud.Cash.Ledger.{signed, IsLedger}
use aris_cloud.Cash.Keeps.Actions.{
  IsFlow, positive, act_on_session-IsLedger, record_cash_movement-IsLedger,
}
use aris_cloud.Cash.Keeps.Open.{opened-IsLedger}
use aris_cloud.Cash.Keeps.Close.{balance-no_session, closed-IsLedger}
use aris_cloud.Cash.Serve.{Request, perform, IsFresh}
use aris_cloud.Cash.Keeps.Query.{
  IsOfCaller, open_session_query-IsOfCaller, active_session-IsOfCaller,
  require_open_cash_session-IsOfCaller,
}
use aris_cloud.Cash.Keeps.Cuts.{create_cash_cut-IsLedger, cash_cut_action-IsLedger}

module _ (c : Caller) (db : CashDb) (l : IsLedger db) where
  open_cash_session-IsLedger :
      (amount : Option ℤ) (date timezone : Option ℕ)
      → find c.new_id db.sessions ≡ none
      → Ensures IsLedger (open_cash_session c amount date timezone db)
  unfolding open_cash_session
  open_cash_session-IsLedger amount date timezone fresh =
      Ensures-bind IsLedger (ensure_positive_amount amount) _ λ value e.
        Ensures-bind IsLedger (or_raise date validation_error) _ λ day _.
          Ensures-bind IsLedger (or_raise timezone validation_error) _ λ _ _.
            Ensures-bind IsLedger (ensure_not_closed db c.tenant_id c.store_id day) _
              λ _ not_closed.
                Ensures-bind IsLedger
                  (raise_if (is_some (open_session_query db c.tenant_id c.store_id c.user_id))
                    business_conflict)
                  _
                  λ _ unseen.
                    opened-IsLedger c value day db l fresh (omega (int_laws, positive amount e))
                      (ground arith) (ground arith)

  act_on_open-IsLedger : (action : SessionAction) → Ensures IsLedger (act_on_open c action db)
  unfolding act_on_open
  act_on_open-IsLedger action =
      Ensures-bind IsLedger
        (or_raise (open_session_query db c.tenant_id c.store_id c.user_id) business_conflict) _
        λ s found.
          let own = open_session_query-IsOfCaller c db l s (ground arith) in
          Ensures-bind IsLedger (ensure_not_closed db c.tenant_id c.store_id s.business_date) _
            λ _ _.
              Ensures-bind IsLedger (raise_if (not (is_opened s.status)) validation_error) _
                λ _ _. act_on_session-IsLedger c s db l own.stored own.tenant own.store action

  cash_session_action-IsLedger :
      (action : SessionAction)
      → find c.new_id db.sessions ≡ none
      → Ensures IsLedger (cash_session_action c action db)
  unfolding cash_session_action
  cash_session_action-IsLedger (open_action a d z) fresh = open_cash_session-IsLedger a d z fresh
  cash_session_action-IsLedger action fresh = act_on_open-IsLedger action

  flow-IsLedger :
      (s : CashSession) (id : ℕ) (action : MovementType) (amount : ℤ)
      → IsFlow action
      → IsOfCaller c db s
      → Ensures IsLedger (record_cash_movement c s id action amount db)
  flow-IsLedger s id action amount flow own =
      record_cash_movement-IsLedger c s db l own.stored own.tenant own.store id action amount flow

  checkout_cash-IsLedger :
      (id : ℕ) (cash change : ℤ) → Ensures IsLedger (checkout_cash c id cash change db)
  unfolding checkout_cash
  checkout_cash-IsLedger id cash change =
      Ensures-if IsLedger (leb_ℤ cash (pos 0)) _ _ (λ _. l)
        λ _. Ensures-bind IsLedger (require_open_cash_session c db) _ λ s found.
          Ensures-if IsLedger (leb_ℤ (cash -ℤ change) (pos 0)) _ _ (λ _. l)
            λ _.
              flow-IsLedger s id MovementType.sale (cash -ℤ change) tt
                (require_open_cash_session-IsOfCaller c db l s found)

  refund_cash-IsLedger : (id : ℕ) (cash : ℤ) → Ensures IsLedger (refund_cash c id cash db)
  unfolding refund_cash
  refund_cash-IsLedger id cash =
      Ensures-if IsLedger (leb_ℤ cash (pos 0)) _ _ (λ _. l)
        λ _. Ensures-bind IsLedger (require_open_cash_session c db) _ λ s found.
          flow-IsLedger s id MovementType.cash_out_refund cash tt
            (require_open_cash_session-IsOfCaller c db l s found)

  exchange_cash-IsLedger :
      (id : ℕ) (delta cash change : ℤ) → Ensures IsLedger (exchange_cash c id delta cash change db)
  unfolding exchange_cash
  exchange_cash-IsLedger id delta cash change =
      Ensures-if IsLedger (leb_ℤ cash (pos 0)) _ _ (λ _. l)
        λ _. Ensures-bind IsLedger (require_open_cash_session c db) _ λ s found.
          Ensures-if IsLedger (leb_ℤ (exchange_amount delta cash change) (pos 0)) _ _ (λ _. l)
            λ _.
              flow-IsLedger s id (exchange_action delta) (exchange_amount delta cash change)
                (ground arith) (require_open_cash_session-IsOfCaller c db l s found)

  issue_voucher_cash-IsLedger :
      (id : ℕ) (amount : ℤ) → Ensures IsLedger (issue_voucher_cash c id amount db)
  unfolding issue_voucher_cash
  issue_voucher_cash-IsLedger id amount =
      Ensures-bind IsLedger (or_raise (active_session c db) business_conflict) _ λ s found.
        flow-IsLedger s id MovementType.cash_in amount tt
          (active_session-IsOfCaller c db l s (ground arith))

  refund_voucher_cash-IsLedger :
      (id : ℕ) (amount : ℤ) → Ensures IsLedger (refund_voucher_cash c id amount db)
  unfolding refund_voucher_cash
  refund_voucher_cash-IsLedger id amount =
      Ensures-bind IsLedger (or_raise (active_session c db) business_conflict) _ λ s found.
        flow-IsLedger s id MovementType.cash_out amount tt
          (active_session-IsOfCaller c db l s (ground arith))

  non_cash-IsLedger :
      (today action id : ℕ) (amount : ℤ)
      → IsLedger (record_non_cash_voucher_movement c today action id amount db)
  unfolding record_non_cash_voucher_movement signed
  non_cash-IsLedger today action id amount = record {
    unique = l.unique;
    balanced = balance-no_session _ db.movements db.sessions refl l.balanced;
    non_negative = l.non_negative;
    attached = (refl, l.attached);
    unlocked = l.unlocked;
    single = l.single;
    cut_from = l.cut_from;
  }

  close_day-IsLedger :
      (sums : Sums) (role : Text) (p : DayClosePayload)
      → Ensures IsLedger (close_day sums c role p db)
  unfolding close_day
  close_day-IsLedger sums role p =
      let date = p.business_date in
      let some_open =
        not (is_empty (select (is_open_on c.tenant_id c.store_id date) db.sessions)) in
      Ensures-bind IsLedger
        (raise_if (is_day_closed db.day_closes c.tenant_id c.store_id date) validation_error) _
        λ _ _.
          Ensures-bind IsLedger (check_open_sessions role p some_open)
            (λ _. ok (closed_day sums c p db))
            λ _ _.
              closed-IsLedger sums c p (reconciliation_rollup sums db c.tenant_id c.store_id date)
                db l

-- Every successful request keeps the invariant.
pub perform-IsLedger :
    (sums : Sums) (r : Request) (db : CashDb)
    → IsLedger db
    → IsFresh r db
    → Ensures IsLedger (perform sums r db)
unfolding perform
perform-IsLedger sums (Request.session_action c action) db l fresh =
    cash_session_action-IsLedger c db l action fresh
perform-IsLedger sums (Request.checkout c id cash change) db l fresh =
    checkout_cash-IsLedger c db l id cash change
perform-IsLedger sums (Request.refund c id cash) db l fresh = refund_cash-IsLedger c db l id cash
perform-IsLedger sums (Request.exchange c id delta cash change) db l fresh =
    exchange_cash-IsLedger c db l id delta cash change
perform-IsLedger sums (Request.issue_voucher c id amount) db l fresh =
    issue_voucher_cash-IsLedger c db l id amount
perform-IsLedger sums (Request.refund_voucher c id amount) db l fresh =
    refund_voucher_cash-IsLedger c db l id amount
perform-IsLedger sums (Request.non_cash_voucher c today action id amount) db l fresh =
    non_cash-IsLedger c db l today action id amount
perform-IsLedger sums (Request.day_close c role p) db l fresh =
    close_day-IsLedger c db l sums role p
perform-IsLedger sums (Request.create_cut c payload) db l fresh =
    create_cash_cut-IsLedger c db l payload
perform-IsLedger sums (Request.cut_action c id action) db l fresh =
    cash_cut_action-IsLedger c db l id action
