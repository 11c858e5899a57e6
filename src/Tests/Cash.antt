-- ===== src/Tests/Cash.antt =====
-- A day at a till (app/aris3/routers/pos_cash.py): a session is opened, takes a sale, and the day is
-- closed.
use aris_cloud.Prelude.{All, map, arith, none, ◌≡◌, refl, true, Option, some, List, [], ◌∷◌}
use aris_cloud.Prelude.Int.{◌≤ℤ◌, ℤ, pos, negsuc, ◌+ℤ◌, ◌-ℤ◌}
use aris_cloud.Prelude.Text.{codes}
use aris_cloud.Prelude.Result.{Result, ok, err, validation_error}
use aris_cloud.Cash.Db.{
  CashDb, CashDayClose, Caller, is_day_closed, open_session_query, put, difference_type,
}
use aris_cloud.Cash.Session.{open_action, cash_session_action}
use aris_cloud.Cash.Flow.{checkout_cash}
use aris_cloud.Cash.DayClose.{
  DayClosePayload, Sums, in_unit, cash_difference, may_force_close, close_day, close_open_sessions,
  reconciliation_rollup, total_of,
}
use aris_cloud.Cash.Rows.{find}
use aris_cloud.Cash.Ledger.{IsLedger}
use aris_cloud.Cash.Serve.{Request, perform, Reachable, start, next, empty}
use aris_cloud.Cash.Reach.{Reachable-IsLedger}
use aris_cloud.Cash.Exact.{exact_sum, IsWhole, float_limit, IsExactOnWhole}
use aris_cloud.Cash.Cuts.{CutAction, create_cash_cut, cash_cut_action}
use aris_cloud.Cash.Rollup.{
  day_amounts, sessions_total, reconciliation_rollup-eq-sessions_total, close_day-records,
}

-- Totals in hundredths of a cent, without loss.
abbrev sums : Sums
sums = record { cent = 100; total = λ xs. in_unit 100 (exact_sum xs) }

abbrev caller : Caller
caller = record { tenant_id = 1; store_id = 2; user_id = 3; now = 100; new_id = 40 }

abbrev open_request : Request
open_request = Request.session_action caller (open_action (some (pos 10000)) (some 20) (some 0))

abbrev sale_request : Request
sale_request = Request.checkout caller 77 (pos 5000) (pos 1500)

abbrev close_payload : DayClosePayload
close_payload = record {
  business_date = 20;
  force_if_open_sessions = true;
  counted_cash = some (pos 13400);
  has_reason = true;
}

abbrev close_request : Request
close_request = Request.day_close caller (codes "manager") close_payload

abbrev or_empty : Result CashDb → CashDb
or_empty (ok db) = db
or_empty (err e) = empty

abbrev after_open : CashDb
after_open = or_empty (perform sums open_request empty)

abbrev after_sale : CashDb
after_sale = or_empty (perform sums sale_request after_open)

abbrev after_close : CashDb
after_close = or_empty (perform sums close_request after_sale)

opened_example : perform sums open_request empty ≡ ok after_open
unfolding perform cash_session_action open_session_query is_day_closed find
opened_example = refl

sold_example : perform sums sale_request after_open ≡ ok after_sale
unfolding perform cash_session_action checkout_cash open_session_query is_day_closed put ◌-ℤ◌ ◌+ℤ◌
sold_example = refl

closed_example : perform sums close_request after_sale ≡ ok after_close
unfolding perform cash_session_action checkout_cash close_day open_session_query is_day_closed put
    close_open_sessions reconciliation_rollup total_of may_force_close difference_type ◌-ℤ◌ ◌+ℤ◌
    in_unit
closed_example = refl

abbrev amounts : List CashDayClose → List (ℤ × Option ℤ)
amounts [] = []
amounts (row ∷ rows) = (row.expected_cash, row.difference_amount) ∷ amounts rows

-- The drawer holds 100.00 and the sale's 50.00 less the change of 15.00.
close_amounts : amounts after_close.day_closes ≡ (pos 1350000, some (negsuc 9999)) ∷ []
unfolding perform cash_session_action checkout_cash close_day open_session_query is_day_closed put
    close_open_sessions reconciliation_rollup total_of may_force_close difference_type ◌-ℤ◌ ◌+ℤ◌
    in_unit
close_amounts = refl

after_sale-Reachable : Reachable sums after_sale
unfolding find
after_sale-Reachable =
    next sale_request (next open_request start refl opened_example) tt sold_example

Reachable-IsLedger_example : IsLedger after_sale
Reachable-IsLedger_example = Reachable-IsLedger sums after_sale-Reachable

sums_exact : IsExactOnWhole sums
sums_exact xs whole small = refl

day_amounts-IsWhole : All IsWhole (day_amounts 1 2 20 after_sale)
unfolding perform cash_session_action checkout_cash open_session_query is_day_closed put ◌-ℤ◌ ◌+ℤ◌
day_amounts-IsWhole = ((35, refl), ((100, refl), tt))

few : exact_sum (day_amounts 1 2 20 after_sale) ≤ℤ float_limit
unfolding perform cash_session_action checkout_cash open_session_query is_day_closed put ◌-ℤ◌ ◌+ℤ◌
few = omega arith

reconciliation_rollup-eq-sessions_total_example :
    (reconciliation_rollup sums after_sale 1 2 20).expected_cash
    ≡ in_unit 100 (sessions_total 1 2 20 after_sale.sessions)
reconciliation_rollup-eq-sessions_total_example =
    reconciliation_rollup-eq-sessions_total 1 2 20 sums after_sale sums_exact
      (Reachable-IsLedger sums after_sale-Reachable) day_amounts-IsWhole few

close_day-records_example :
    (row : CashDayClose) × (after_close.day_closes ≡ row ∷ after_sale.day_closes)
    × (row.expected_cash ≡ in_unit 100 (sessions_total 1 2 20 after_sale.sessions))
    × (row.difference_amount
        ≡ cash_difference sums
            (some (pos 13400))
            (in_unit 100 (sessions_total 1 2 20 after_sale.sessions)))
unfolding perform cash_session_action checkout_cash close_day open_session_query is_day_closed put
    close_open_sessions reconciliation_rollup total_of may_force_close difference_type ◌-ℤ◌ ◌+ℤ◌
    in_unit
close_day-records_example =
    close_day-records sums caller (codes "manager") close_payload after_sale after_close sums_exact
      (Reachable-IsLedger sums after_sale-Reachable) day_amounts-IsWhole few closed_example

-- A movement of cash on the next day leaves the closed one alone.
abbrev next_day_request : Request
next_day_request = Request.session_action caller (open_action (some (pos 500)) (some 21) (some 0))

-- A cut takes 50.00 to the bank, and an action on it 20.00 more; nothing is left to take 70.00 again.
abbrev cut_request : Request
cut_request =
    Request.create_cut (record caller { now = 200; new_id = 60 })
      (record {
        cash_session_id = some 40;
        use_last_cut_window = true;
        from_at = none;
        to_at = none;
        counted_cash = none;
        deposit_removed_amount = some (pos 5000);
        auto_apply_cash_out = true;
      })

abbrev cash_out_request : ℤ → Request
cash_out_request amount =
    Request.cut_action caller 60 (CutAction.apply_cash_out_action (some amount))

abbrev after_cut : CashDb
after_cut = or_empty (perform sums cut_request after_sale)

cut_amounts :
    (map
        (λ s. s.expected_cash)
        (or_empty (perform sums (cash_out_request (pos 2000)) after_cut)).sessions
      ≡ pos 6500 ∷ [])
    × (perform sums (cash_out_request (pos 9000)) after_cut ≡ err validation_error)
unfolding perform cash_session_action checkout_cash open_session_query is_day_closed put ◌-ℤ◌ ◌+ℤ◌
    create_cash_cut cash_cut_action
cut_amounts = (refl, refl)
