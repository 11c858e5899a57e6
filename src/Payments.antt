-- ===== src/Payments.antt =====
-- Payments of a sale: `_validate_payments` of app/aris3/routers/pos_sales.py. Of the texts of a
-- payment only their presence counts.
pub mod Accepted
pub mod Collected
use aris_cloud.Prelude.{Bool, not, ◌&&◌, ◌||◌, List, [], ◌∷◌, if◌then◌else◌, is_empty}
use aris_cloud.Prelude.Int.{ℤ, pos, ◌+ℤ◌, ◌-ℤ◌, leb_ℤ, ltb_ℤ}
use aris_cloud.Prelude.Result.{Result, ok, ◌>>=◌, ◌>>◌, raise_if, validation_error}

pub data PaymentMethod : Type 0 where
  cash card transfer advance : PaymentMethod

pub record PosPaymentCreate : Type 0 where
  pub method : PaymentMethod
  pub amount : ℤ
  pub authorization_code : Bool
  pub bank_name : Bool
  pub voucher_number : Bool
  pub reference_code : Bool
  pub advance_id : Bool

-- The sums that the loop builds up.
pub record PaymentSums : Type 0 where
  pub paid_total : ℤ
  pub cash_total : ℤ
  pub non_cash_total : ℤ
  pub advance_total : ℤ

pub record PaymentTotals : Type 0 where
  pub total_due : ℤ
  pub paid_total : ℤ
  pub balance_due : ℤ
  pub change_due : ℤ
  pub cash_total : ℤ
  pub advance_total : ℤ

abbrev pub max_ℤ : ℤ → ℤ → ℤ
max_ℤ a b = if ltb_ℤ a b then b else a

-- The tests on the fields that a method needs.
unfoldable pub check_method : PaymentMethod → PosPaymentCreate → Result (Unit {0})
check_method PaymentMethod.cash p = ok tt
check_method PaymentMethod.card p = raise_if (not p.authorization_code) validation_error
check_method PaymentMethod.transfer p =
    raise_if (not p.bank_name || not p.voucher_number) validation_error
check_method PaymentMethod.advance p = do
  raise_if (not p.reference_code && not p.advance_id) validation_error
  raise_if (p.authorization_code || p.bank_name) validation_error

unfoldable pub add_payment : PaymentMethod → ℤ → PaymentSums → PaymentSums
add_payment PaymentMethod.cash x s = record s {
  paid_total = s.paid_total +ℤ x;
  cash_total = s.cash_total +ℤ x;
}
add_payment PaymentMethod.advance x s = record s {
  paid_total = s.paid_total +ℤ x;
  non_cash_total = s.non_cash_total +ℤ x;
  advance_total = s.advance_total +ℤ x;
}
add_payment _ x s = record s {
  paid_total = s.paid_total +ℤ x;
  non_cash_total = s.non_cash_total +ℤ x;
}

-- The loop over the payments.
unfoldable pub add_payments : List PosPaymentCreate → PaymentSums → Result PaymentSums
unfolding check_method add_payment
add_payments [] s = ok s
add_payments (p ∷ ps) s = do
  raise_if (leb_ℤ p.amount (pos 0)) validation_error
  check_method p.method p
  add_payments ps (add_payment p.method p.amount s)

-- The tests after the loop.
unfoldable pub check_sums : ℤ → PaymentSums → Result PaymentTotals
check_sums total_due s = do
  raise_if (ltb_ℤ s.paid_total total_due) validation_error
  let change_due = s.paid_total -ℤ total_due
  raise_if (ltb_ℤ (pos 0) change_due && leb_ℤ s.cash_total (pos 0)) validation_error
  raise_if (ltb_ℤ s.cash_total change_due) validation_error
  raise_if (ltb_ℤ total_due s.non_cash_total) validation_error
  raise_if (ltb_ℤ total_due s.advance_total) validation_error
  ok (record {
    total_due = total_due;
    paid_total = s.paid_total;
    balance_due = max_ℤ (total_due -ℤ s.paid_total) (pos 0);
    change_due = change_due;
    cash_total = s.cash_total;
    advance_total = s.advance_total;
  })

abbrev pub no_sums : PaymentSums
no_sums = record {
  paid_total = pos 0;
  cash_total = pos 0;
  non_cash_total = pos 0;
  advance_total = pos 0;
}

unfoldable pub validate_payments : List PosPaymentCreate → ℤ → Result PaymentTotals
unfolding add_payments check_sums
validate_payments payments total_due = do
  raise_if (is_empty payments) validation_error
  s ← add_payments payments no_sums
  check_sums total_due s
