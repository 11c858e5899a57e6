-- ===== src/Payments/Accepted.antt =====
-- Which payments a sale accepts, and what they bring.
use aris_cloud.Prelude.{
  ◌↔◌, ◌∙◌, ap, sym, refl, ◌≡◌, Bool, true, false, not, List, [], ◌∷◌, if◌then◌else◌, is_empty,
  arith, All, ◌⊎◌,
}
use aris_cloud.Prelude.Int.{ℤ, pos, ◌+ℤ◌, ◌-ℤ◌, ◌≤ℤ◌, int_laws, +ℤ_parts, -ℤ_parts}
use aris_cloud.Prelude.Result.{Result, ok, err, ◌>>=◌}
use aris_cloud.Payments.{
  validate_payments, PaymentTotals, no_sums, check_sums, PaymentSums, check_method, add_payments,
  add_payment, PaymentMethod, PosPaymentCreate,
}

-- The payment is positive and has the fields of its method.
abbrev pub HasFields : PaymentMethod → PosPaymentCreate → Type 0
HasFields PaymentMethod.cash p = Unit
HasFields PaymentMethod.card p = p.authorization_code ≡ true
HasFields PaymentMethod.transfer p = (p.bank_name ≡ true) × (p.voucher_number ≡ true)
HasFields PaymentMethod.advance p =
    ((p.reference_code ≡ true) ⊎ (p.advance_id ≡ true))
    × (p.authorization_code ≡ false)
    × (p.bank_name ≡ false)

abbrev pub IsComplete : PosPaymentCreate → Type 0
IsComplete p = (pos 1 ≤ℤ p.amount) × HasFields p.method p

-- The amounts of the payments by one of some methods, added up.
abbrev pub paid_by : (PaymentMethod → Bool) → List PosPaymentCreate → ℤ
paid_by p [] = pos 0
paid_by p (x ∷ xs) = let rest = paid_by p xs in if p x.method then x.amount +ℤ rest else rest

abbrev pub is_cash : PaymentMethod → Bool
is_cash PaymentMethod.cash = true
is_cash _ = false

abbrev pub is_advance : PaymentMethod → Bool
is_advance PaymentMethod.advance = true
is_advance _ = false

abbrev pub is_other : PaymentMethod → Bool
is_other m = not (is_cash m)

abbrev pub sums_from : PaymentSums → List PosPaymentCreate → PaymentSums
sums_from s ps = record {
  paid_total = s.paid_total +ℤ paid_by (λ _. true) ps;
  cash_total = s.cash_total +ℤ paid_by is_cash ps;
  non_cash_total = s.non_cash_total +ℤ paid_by is_other ps;
  advance_total = s.advance_total +ℤ paid_by is_advance ps;
}

check_method-HasFields :
    (m : PaymentMethod) (p : PosPaymentCreate) {u : Unit {0}}
    → check_method m p ≡ ok u
    → HasFields m p
unfolding check_method
check_method-HasFields m p h = ground arith

HasFields-check_method :
    (m : PaymentMethod) (p : PosPaymentCreate) → HasFields m p → check_method m p ≡ ok tt
unfolding check_method
HasFields-check_method m p h = ground arith

same_sums :
    {a b c d a' b' c' d' : ℤ}
    → a ≡ a'
    → b ≡ b'
    → c ≡ c'
    → d ≡ d'
    → ◌≡◌ {A = PaymentSums}
        (record { paid_total = a; cash_total = b; non_cash_total = c; advance_total = d })
        (record { paid_total = a'; cash_total = b'; non_cash_total = c'; advance_total = d' })
same_sums p q r s = cc

sums_from-cons :
    (m : PaymentMethod) (x : ℤ) (s : PaymentSums) (p : PosPaymentCreate)
    (ps : List PosPaymentCreate)
    → p.method ≡ m
    → p.amount ≡ x
    → sums_from (add_payment m x s) ps ≡ sums_from s (p ∷ ps)
unfolding add_payment
sums_from-cons PaymentMethod.cash x s p ps e f =
    rw (e, f) (same_sums (omega int_laws) (omega int_laws) (omega int_laws) (omega int_laws))
sums_from-cons PaymentMethod.card x s p ps e f =
    rw (e, f) (same_sums (omega int_laws) (omega int_laws) (omega int_laws) (omega int_laws))
sums_from-cons PaymentMethod.transfer x s p ps e f =
    rw (e, f) (same_sums (omega int_laws) (omega int_laws) (omega int_laws) (omega int_laws))
sums_from-cons PaymentMethod.advance x s p ps e f =
    rw (e, f) (same_sums (omega int_laws) (omega int_laws) (omega int_laws) (omega int_laws))

add_payments-ok :
    (ps : List PosPaymentCreate) (s : PaymentSums)
    → All IsComplete ps
    → add_payments ps s ≡ ok (sums_from s ps)
unfolding add_payments
add_payments-ok [] s h =
    ap ok (same_sums (omega int_laws) (omega int_laws) (omega int_laws) (omega int_laws))
add_payments-ok (p ∷ ps) s h = ground (
  arith,
  HasFields-check_method p.method p h.0.1,
  add_payments-ok ps (add_payment p.method p.amount s) h.1,
  sums_from-cons p.method p.amount s p ps refl refl,
)

add_payments-IsComplete :
    (ps : List PosPaymentCreate) (s : PaymentSums) {r : PaymentSums}
    → add_payments ps s ≡ ok r
    → All IsComplete ps
unfolding add_payments
add_payments-IsComplete [] s h = tt
add_payments-IsComplete (p ∷ ps) s {r} h = ground (
  arith,
  check_method-HasFields p.method p {u = tt},
  add_payments-IsComplete ps (add_payment p.method p.amount s) {r = r},
)

split-step :
    (m : PaymentMethod) (x c o : ℤ)
    → x +ℤ (c +ℤ o) ≡ (if is_cash m then x +ℤ c else c) +ℤ (if is_other m then x +ℤ o else o)
split-step PaymentMethod.cash x c o = omega int_laws
split-step PaymentMethod.card x c o = omega int_laws
split-step PaymentMethod.transfer x c o = omega int_laws
split-step PaymentMethod.advance x c o = omega int_laws

split_total :
    (ps : List PosPaymentCreate)
    → paid_by (λ _. true) ps ≡ paid_by is_cash ps +ℤ paid_by is_other ps
split_total [] = omega int_laws
split_total (p ∷ ps) =
    ap (λ z. p.amount +ℤ z) (split_total ps)
    ∙ split-step p.method p.amount (paid_by is_cash ps) (paid_by is_other ps)

record IsWithin (cash advance other : ℤ) : Type 0 where
  cash_counts : pos 0 ≤ℤ cash
  advance_counts : pos 0 ≤ℤ advance
  advance_within : advance ≤ℤ other

step-IsWithin :
    (m : PaymentMethod) (x c a o : ℤ)
    → pos 1 ≤ℤ x
    → IsWithin c a o
    → IsWithin
        (if is_cash m then x +ℤ c else c)
        (if is_advance m then x +ℤ a else a)
        (if is_other m then x +ℤ o else o)
step-IsWithin PaymentMethod.cash x c a o p w = record {
  cash_counts = omega int_laws;
  advance_counts = w.advance_counts;
  advance_within = w.advance_within;
}
step-IsWithin PaymentMethod.advance x c a o p w = record {
  cash_counts = w.cash_counts;
  advance_counts = omega int_laws;
  advance_within = omega int_laws;
}
step-IsWithin _ x c a o p w = record {
  cash_counts = w.cash_counts;
  advance_counts = w.advance_counts;
  advance_within = omega int_laws;
}

amounts-IsWithin :
    (ps : List PosPaymentCreate)
    → All IsComplete ps
    → IsWithin (paid_by is_cash ps) (paid_by is_advance ps) (paid_by is_other ps)
amounts-IsWithin [] h = record {
  cash_counts = omega int_laws;
  advance_counts = omega int_laws;
  advance_within = omega int_laws;
}
amounts-IsWithin (p ∷ ps) h = step-IsWithin p.method p.amount _ _ _ h.0.0 (amounts-IsWithin ps h.1)

-- The payments are accepted for an amount due.
pub record IsAccepted (ps : List PosPaymentCreate) (total_due : ℤ) : Type 0 where
  pub nonempty : is_empty ps ≡ false
  pub complete : All IsComplete ps
  pub covered : total_due ≤ℤ paid_by (λ _. true) ps
  pub within : paid_by is_other ps ≤ℤ total_due

abbrev pub totals_for : List PosPaymentCreate → ℤ → PaymentTotals
totals_for ps total_due = record {
  total_due = total_due;
  paid_total = paid_by (λ _. true) ps;
  balance_due = pos 0;
  change_due = paid_by (λ _. true) ps -ℤ total_due;
  cash_total = paid_by is_cash ps;
  advance_total = paid_by is_advance ps;
}

start-sums :
    (ps : List PosPaymentCreate)
    → sums_from no_sums ps ≡ record {
      paid_total = paid_by (λ _. true) ps;
      cash_total = paid_by is_cash ps;
      non_cash_total = paid_by is_other ps;
      advance_total = paid_by is_advance ps;
    }
start-sums ps = same_sums (omega int_laws) (omega int_laws) (omega int_laws) (omega int_laws)

check_sums-ok :
    (due p c o a : ℤ)
    → p ≡ c +ℤ o
    → IsWithin c a o
    → due ≤ℤ p
    → o ≤ℤ due
    → check_sums due
        (record { paid_total = p; cash_total = c; non_cash_total = o; advance_total = a })
      ≡ ok (record {
        total_due = due;
        paid_total = p;
        balance_due = pos 0;
        change_due = p -ℤ due;
        cash_total = c;
        advance_total = a;
      })
unfolding check_sums
check_sums-ok due p c o a e w covered within =
    ground (arith, w.cash_counts, w.advance_within, +ℤ_parts c o, -ℤ_parts p due, -ℤ_parts due p)

check_sums-covered :
    (due : ℤ) (s : PaymentSums) {r : PaymentTotals}
    → check_sums due s ≡ ok r
    → (due ≤ℤ s.paid_total) × (s.non_cash_total ≤ℤ due)
unfolding check_sums
check_sums-covered due s h = ground arith

check_sums-IsAccepted :
    (ps : List PosPaymentCreate) (due : ℤ) (totals : PaymentTotals) (m : Result PaymentSums)
    → is_empty ps ≡ false
    → add_payments ps no_sums ≡ m
    → (m >>= check_sums due) ≡ ok totals
    → IsAccepted ps due
check_sums-IsAccepted ps due totals (err x) nonempty e h = cc
check_sums-IsAccepted ps due totals (ok s) nonempty e h =
    let complete = add_payments-IsComplete ps no_sums {r = s} e in
    let sums = sym e ∙ add_payments-ok ps no_sums complete ∙ ap ok (start-sums ps) in
    let range = check_sums-covered due s h in
    record {
      nonempty = nonempty;
      complete = complete;
      covered = ground (arith, sums, range);
      within = ground (arith, sums, range);
    }

-- The payments of a sale are accepted exactly when there are some, each is positive and has the
-- fields of its method, together they cover the amount due, and those not in cash do not exceed it;
-- the totals are then the sums by method, with no balance due, and the change is the excess.
pub validate_payments-accepts :
    (ps : List PosPaymentCreate) (due : ℤ) (totals : PaymentTotals)
    → (validate_payments ps due ≡ ok totals) ↔ (IsAccepted ps due × (totals ≡ totals_for ps due))
unfolding validate_payments
validate_payments-accepts ps due totals =
    let back : IsAccepted ps due → validate_payments ps due ≡ ok (totals_for ps due) = λ a.
      let result =
        check_sums-ok due (paid_by (λ _. true) ps) (paid_by is_cash ps) (paid_by is_other ps)
          (paid_by is_advance ps) (split_total ps) (amounts-IsWithin ps a.complete) a.covered
          a.within in
      ground (arith, add_payments-ok ps no_sums a.complete, start-sums ps, result) in
    (
      λ h.
          let a =
            check_sums-IsAccepted ps due totals (add_payments ps no_sums) (ground arith) refl
              (ground arith) in
          (a, ground (arith, back a)),
      λ (a, e). rw e (back a),
    )

drawer-sums :
    (due c o : ℤ) → o ≤ℤ due → (pos 0 ≤ℤ c -ℤ (c +ℤ o -ℤ due)) × (c -ℤ (c +ℤ o -ℤ due) +ℤ o ≡ due)
drawer-sums due c o within = (omega int_laws, omega int_laws)

-- What accepted payments leave in the drawer, the cash less the change, is not negative, and makes
-- up the amount due together with the payments that are not in cash.
pub validate_payments-drawer :
    (ps : List PosPaymentCreate) (due : ℤ) (totals : PaymentTotals)
    → validate_payments ps due ≡ ok totals
    → (pos 0 ≤ℤ totals.cash_total -ℤ totals.change_due)
      × (totals.cash_total -ℤ totals.change_due +ℤ paid_by is_other ps ≡ due)
validate_payments-drawer ps due totals h =
    let (a, e) = (validate_payments-accepts ps due totals).0 h in
    rw (e, split_total ps) (drawer-sums due (paid_by is_cash ps) (paid_by is_other ps) a.within)
