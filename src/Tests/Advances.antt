-- ===== src/Tests/Advances.antt =====
-- A voucher that is sold for cash, refunded and swept (app/aris3/routers/pos_advances.py).
use aris_cloud.Prelude.{◌<◌, refl, ◌≡◌, true, false, List, [], ◌∷◌, any, select, none, some}
use aris_cloud.Prelude.Int.{◌+ℤ◌, ◌-ℤ◌, pos}
use aris_cloud.Prelude.Result.{Result, ok, err}
use aris_cloud.Scope.{
  TokenData, Store, enforce_tenant_scope, enforce_store_scope, find_store, has_broad_store_role,
}
use aris_cloud.Prelude.Text.{codes}
use aris_cloud.Cash.Db.{
  CashSession, CashMovement, MovementType, opened, Caller, is_day_closed, put, latest,
}
use aris_cloud.Cash.Flow.{active_session, issue_voucher_cash, refund_voucher_cash}
use aris_cloud.Prelude.{map}
use aris_cloud.Advances.{
  advance_event, EventAction, AdvanceStatus, advance, PosAdvance, find_advance, put_advance,
  last_number, expire_advance_if_needed, sweep_expired_advances,
}
use aris_cloud.Advances.Handlers.{
  AdvanceDb, issued_advance, refund, create_advance, mutate_advance, sweep_endpoint,
}
use aris_cloud.Advances.Final.{perform, sweep, perform-terminal_is_final, mutate_advance-requires}
use aris_cloud.Advances.Sweep.{
  is_overdue_in, sweep_expired_advances-leaves_none, mutate_advance-refund_pays,
}

abbrev stores : List Store
stores = record { id = 2; tenant_id = 1 } ∷ []

abbrev cashier : TokenData
cashier = record { tenant_id = some 1; store_id = some 2; role = codes "cashier" }

abbrev caller : Caller
caller = record { tenant_id = 1; store_id = 2; user_id = 3; now = 100; new_id = 50 }

abbrev till : CashSession
till = record {
  id = 7;
  tenant_id = 1;
  store_id = 2;
  cashier_user_id = 3;
  status = opened;
  business_date = 20;
  opening_amount = pos 1000;
  expected_cash = pos 1000;
  counted_cash = none;
  difference = none;
  opened_at = 90;
  closed_at = none;
  created_at = 90;
}

abbrev before : AdvanceDb
before = record {
  advances = [];
  events = [];
  sales = [];
  cash = record { sessions = till ∷ []; movements = []; day_closes = []; cuts = [] };
}

abbrev or_before : Result AdvanceDb → AdvanceDb
or_before (ok db) = db
or_before (err e) = before

abbrev sold : AdvanceDb
sold = or_before (create_advance caller 20 (pos 2500) true advance before)

abbrev voucher : PosAdvance
voucher = issued_advance caller (pos 2500) advance 1

abbrev paid_back : AdvanceDb
paid_back = or_before (mutate_advance cashier stores caller 20 50 (refund (some true)) sold)

abbrev refunded_voucher : PosAdvance
refunded_voucher = record voucher { status = AdvanceStatus.refunded; refunded_at = some 100 }

sold_voucher : sold.advances ≡ voucher ∷ []
unfolding create_advance last_number issue_voucher_cash active_session latest is_day_closed put ◌+ℤ◌
    ◌-ℤ◌
sold_voucher = refl

refund_succeeds :
    mutate_advance cashier stores caller 20 50 (refund (some true)) sold ≡ ok paid_back
unfolding mutate_advance create_advance last_number issue_voucher_cash refund_voucher_cash
    active_session latest is_day_closed put enforce_tenant_scope enforce_store_scope find_store
    has_broad_store_role find_advance put_advance ◌+ℤ◌ ◌-ℤ◌
refund_succeeds = refl

perform-terminal_is_final_example : find_advance 50 paid_back.advances ≡ some refunded_voucher
unfolding perform mutate_advance create_advance last_number issue_voucher_cash refund_voucher_cash
    active_session latest is_day_closed put enforce_tenant_scope enforce_store_scope find_store
    has_broad_store_role find_advance put_advance sweep_endpoint sweep_expired_advances
    expire_advance_if_needed ◌+ℤ◌ ◌-ℤ◌
perform-terminal_is_final_example =
    perform-terminal_is_final (sweep caller) paid_back paid_back 50 refunded_voucher (refl, tt) tt
      refl refl refl

mutate_advance-requires_example :
    (row : PosAdvance) × (find_advance 50 sold.advances ≡ some row)
    × (row.status ≡ AdvanceStatus.active)
    × (100 < row.expires_at)
    × (cashier.tenant_id ≡ some row.tenant_id)
mutate_advance-requires_example =
    mutate_advance-requires cashier stores caller 20 50 (refund (some true)) sold paid_back
      refund_succeeds

sweep_expired_advances-leaves_none_example :
    (any (is_overdue_in 1 2 9000000) (sweep_expired_advances 1 2 9000000 (voucher ∷ [])).0 ≡ false)
    × ((sweep_expired_advances 1 2 9000000 (voucher ∷ [])).1
        ≡ map
            (λ row. advance_event row EventAction.expired 9000000)
            (select (is_overdue_in 1 2 9000000) (voucher ∷ [])))
    × ((row : PosAdvance)
        → find_advance 50 (voucher ∷ []) ≡ some row
        → is_overdue_in 1 2 9000000 row ≡ false
        → find_advance 50 (sweep_expired_advances 1 2 9000000 (voucher ∷ [])).0 ≡ some row)
sweep_expired_advances-leaves_none_example =
    sweep_expired_advances-leaves_none 1 2 9000000 50 (voucher ∷ [])

mutate_advance-refund_pays_example :
    (m : CashMovement) × (paid_back.cash.movements ≡ m ∷ sold.cash.movements)
    × (m.action ≡ MovementType.cash_out)
    × (m.amount ≡ pos 2500)
    × (m.tenant_id ≡ 1)
    × (m.store_id ≡ 2)
unfolding create_advance last_number issue_voucher_cash active_session latest is_day_closed put
    find_advance ◌+ℤ◌ ◌-ℤ◌
mutate_advance-refund_pays_example =
    mutate_advance-refund_pays cashier stores caller 20 50 sold paid_back {row = voucher} refl
      refund_succeeds
