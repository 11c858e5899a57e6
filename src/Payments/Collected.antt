-- ===== src/Payments/Collected.antt =====
-- The payments of a checkout and its cash: `_validate_payments` gives the amounts from which
-- app/aris3/routers/pos_sales.py books the movement of the drawer.
use aris_cloud.Prelude.{inr, ℕ, inl, refl, ◌≡◌, true, List, ◌∷◌, arith, ◌⊎◌}
use aris_cloud.Prelude.Int.{
  ℤ, pos, ◌+ℤ◌, ◌-ℤ◌, ◌≤ℤ◌, leb_ℤ, int_laws, +ℤ_parts, -ℤ_parts, eq_of_parts,
}
use aris_cloud.Prelude.Result.{
  ok, raise_if, validation_error, Ensures, Ensures-bind, Ensures-ok, Ensures-if,
}
use aris_cloud.Payments.{PosPaymentCreate, PaymentTotals, validate_payments}
use aris_cloud.Payments.Accepted.{
  paid_by, is_other, validate_payments-accepts, validate_payments-drawer,
}
use aris_cloud.Cash.Db.{
  ensure_not_closed, ensure_non_negative_balance, CashDb, CashMovement, CashSession, MovementType,
  Caller,
}
use aris_cloud.Cash.Flow.{
  flow_movement, require_open_cash_session, record_cash_movement, checkout_cash,
}

nothing_left : (n o due : ℤ) → pos 0 ≤ℤ n → leb_ℤ n (pos 0) ≡ true → n +ℤ o ≡ due → o ≡ due
nothing_left n o due p q e = eq_of_parts o due (ground (arith, +ℤ_parts n o))

-- What a checkout does to the drawer for payments of an amount due.
abbrev pub IsCollected : List PosPaymentCreate → ℤ → CashDb → CashDb → Type 0
IsCollected ps due db db' =
    ((db' ≡ db) × (paid_by is_other ps ≡ due))
    ⊎ ((m : CashMovement) × (db'.movements ≡ m ∷ db.movements)
        × (m.action ≡ MovementType.sale)
        × (m.amount +ℤ paid_by is_other ps ≡ due))

module _ (c : Caller) (sale_id : ℕ) (ps : List PosPaymentCreate) (due : ℤ) (db : CashDb) where
  record-IsCollected :
      (s : CashSession) (n : ℤ)
      → n +ℤ paid_by is_other ps ≡ due
      → Ensures (IsCollected ps due db) (record_cash_movement c s sale_id MovementType.sale n db)
  unfolding record_cash_movement
  record-IsCollected s n e =
      let P = IsCollected ps due db in
      let after = s.expected_cash +ℤ n in
      Ensures-bind P (raise_if (leb_ℤ n (pos 0)) validation_error) _ λ _ _.
        Ensures-bind P (ensure_not_closed db c.tenant_id c.store_id s.business_date) _ λ _ _.
          Ensures-bind P (ensure_non_negative_balance after) _
            λ _ _. inr (flow_movement c s sale_id MovementType.sale n after, refl, refl, e)

  checkout-IsCollected :
      (cash change : ℤ)
      → pos 0 ≤ℤ change
      → pos 0 ≤ℤ cash -ℤ change
      → cash -ℤ change +ℤ paid_by is_other ps ≡ due
      → Ensures (IsCollected ps due db) (checkout_cash c sale_id cash change db)
  unfolding checkout_cash
  checkout-IsCollected cash change p n e =
      let P = IsCollected ps due db in
      let other = paid_by is_other ps in
      Ensures-if P (leb_ℤ cash (pos 0)) _ _
        (λ none_paid. inl (
          refl,
          nothing_left (cash -ℤ change) other due n (ground (arith, -ℤ_parts cash change)) e,
        ))
        λ _. Ensures-bind P (require_open_cash_session c db) _ λ s _.
          Ensures-if P (leb_ℤ (cash -ℤ change) (pos 0)) _ _
            (λ none_left. inl (refl, nothing_left (cash -ℤ change) other due n none_left e))
            λ _. record-IsCollected s (cash -ℤ change) e

change_due : (p due : ℤ) → due ≤ℤ p → pos 0 ≤ℤ p -ℤ due
change_due p due h = omega int_laws

-- A checkout of accepted payments that succeeds either books one sale in the drawer, of the amount due
-- less what is not paid in cash, or leaves the drawer alone, when nothing is due in cash.
pub checkout_cash-collects :
    (c : Caller) (sale_id : ℕ) (ps : List PosPaymentCreate) (due : ℤ) (totals : PaymentTotals)
    (db db' : CashDb)
    → validate_payments ps due ≡ ok totals
    → checkout_cash c sale_id totals.cash_total totals.change_due db ≡ ok db'
    → IsCollected ps due db db'
checkout_cash-collects c sale_id ps due totals db db' paid h =
    let (a, e) = (validate_payments-accepts ps due totals).0 paid in
    let drawer = validate_payments-drawer ps due totals paid in
    let change : pos 0 ≤ℤ totals.change_due =
      rw e (change_due (paid_by (λ _. true) ps) due a.covered) in
    Ensures-ok (IsCollected ps due db)
      (checkout_cash c sale_id totals.cash_total totals.change_due db)
      (checkout-IsCollected c sale_id ps due db totals.cash_total totals.change_due change drawer.0
        drawer.1)
      h
