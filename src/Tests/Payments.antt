-- ===== src/Tests/Payments.antt =====
-- A sale of 35.00 (app/aris3/routers/pos_sales.py), paid by card and with a note of 20.00.
use aris_cloud.Prelude.{none, ◌↔◌, refl, ◌≡◌, true, false, List, [], ◌∷◌}
use aris_cloud.Prelude.Int.{pos, ◌+ℤ◌, ◌-ℤ◌, ◌≤ℤ◌}
use aris_cloud.Prelude.Result.{Result, ok, err, validation_error}
use aris_cloud.Payments.{PosPaymentCreate, PaymentMethod, validate_payments}
use aris_cloud.Payments.Collected.{IsCollected, checkout_cash-collects}
use aris_cloud.Cash.Db.{CashDb, CashSession, Caller, opened, is_day_closed, put}
use aris_cloud.Cash.Flow.{checkout_cash}
use aris_cloud.Payments.Accepted.{
  is_other, paid_by, IsAccepted, totals_for, validate_payments-accepts, validate_payments-drawer,
}

abbrev card_payment : PosPaymentCreate
card_payment = record {
  method = PaymentMethod.card;
  amount = pos 2000;
  authorization_code = true;
  bank_name = false;
  voucher_number = false;
  reference_code = false;
  advance_id = false;
}

abbrev cash_payment : PosPaymentCreate
cash_payment = record card_payment { method = PaymentMethod.cash }

abbrev payments : List PosPaymentCreate
payments = card_payment ∷ cash_payment ∷ []

sale_paid : validate_payments payments (pos 3500) ≡ ok (totals_for payments (pos 3500))
unfolding validate_payments ◌+ℤ◌ ◌-ℤ◌
sale_paid = refl

sale_change : (totals_for payments (pos 3500)).change_due ≡ pos 500
unfolding ◌+ℤ◌ ◌-ℤ◌
sale_change = refl

card_over_due : validate_payments payments (pos 1500) ≡ err validation_error
unfolding validate_payments ◌+ℤ◌ ◌-ℤ◌
card_over_due = refl

validate_payments-accepts_example :
    (validate_payments payments (pos 3500) ≡ ok (totals_for payments (pos 3500))) ↔ (
      IsAccepted payments (pos 3500)
      × (totals_for payments (pos 3500) ≡ totals_for payments (pos 3500)))
validate_payments-accepts_example =
    validate_payments-accepts payments (pos 3500) (totals_for payments (pos 3500))

validate_payments-drawer_example :
    (pos 0 ≤ℤ pos 2000 -ℤ (totals_for payments (pos 3500)).change_due)
    × (pos 2000 -ℤ (totals_for payments (pos 3500)).change_due +ℤ paid_by is_other payments
        ≡ pos 3500)
unfolding ◌+ℤ◌
validate_payments-drawer_example =
    validate_payments-drawer payments (pos 3500) (totals_for payments (pos 3500)) sale_paid

abbrev cashier : Caller
cashier = record { tenant_id = 1; store_id = 2; user_id = 3; now = 100; new_id = 40 }

abbrev till : CashSession
till = record {
  id = 7;
  tenant_id = 1;
  store_id = 2;
  cashier_user_id = 3;
  status = opened;
  business_date = 20;
  opening_amount = pos 1000;
  expected_cash = pos 1000;
  counted_cash = none;
  difference = none;
  opened_at = 90;
  closed_at = none;
  created_at = 90;
}

abbrev before : CashDb
before = record { sessions = till ∷ []; movements = []; day_closes = []; cuts = [] }

abbrev or_before : Result CashDb → CashDb
or_before (ok db) = db
or_before (err e) = before

abbrev after : CashDb
after = or_before (
    checkout_cash cashier 77 (totals_for payments (pos 3500)).cash_total
      (totals_for payments (pos 3500)).change_due before)

cash_booked :
    checkout_cash cashier 77
      (totals_for payments (pos 3500)).cash_total
      (totals_for payments (pos 3500)).change_due
      before
    ≡ ok after
unfolding checkout_cash is_day_closed put ◌+ℤ◌ ◌-ℤ◌
cash_booked = refl

checkout_cash-collects_example : IsCollected payments (pos 3500) before after
checkout_cash-collects_example =
    checkout_cash-collects cashier 77 payments (pos 3500) (totals_for payments (pos 3500)) before
      after sale_paid cash_booked
