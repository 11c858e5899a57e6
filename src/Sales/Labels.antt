-- ===== src/Sales/Labels.antt =====
-- What becomes of the EPC of a unit that app/aris3/routers/pos_sales.py sells and takes back.
use aris_cloud.Prelude.{
  ℕ, suc, inr, inl, sym, Bool-cases, refl, ◌≡◌, true, false, not, List, [], ◌∷◌, map, arith, All,
  length, Option, none, some, ltb,
}
use aris_cloud.Prelude.Int.{◌-ℤ◌}
use aris_cloud.Prelude.Result.{
  Result, ok, err, or_raise, Ensures, Ensures-bind, or_raise-some, Ensures-ok, Ensures-if,
  Ensures-raise_if, validation_error,
}
use aris_cloud.Prelude.Text.{Text, text_eq_iff}
use aris_cloud.Transfers.{StockItem, is_epc}
use aris_cloud.Transfers.Lines.{truthy}
use aris_cloud.Transfers.Stock.{Tracked, begin, matching, change_rows, write, same_text}
use aris_cloud.Transfers.Tracks.{Tracks, change_rows-Tracks, begin-Tracks}
use aris_cloud.Sales.{caller_at, check_cash_session}
use mathlib.Core.Path.{subst}
use aris_cloud.Cash.Flow.{refund_cash}
use aris_cloud.Sales.Refund.{cash_of, check_refund, sum_amounts, eq_ℤ, is_non_reusable, sold_sku}
use aris_cloud.Sales.{
  SaleRow, SaleLineRow, SaleReturnItem, LabelStrategy, SaleDb, Seller, PosSaleActionRequest,
  find_sale_line, lines_of,
}
use aris_cloud.Sales.Refund.{
  Returned, sold_epc, return_units, return_each, take_back, as_pending, refund_sale_items,
}
use aris_cloud.Sales.Checkout.{checkout_sale}
use aris_cloud.Sales.Unlabeled.{is_sold_labeled, IsUnlabeled, checkout_sale-IsUnlabeled}

same_text-truthy : (s t : Option Text) → same_text s t ≡ true → truthy t ≡ true → truthy s ≡ true
unfolding same_text truthy
same_text-truthy none none h e = e
same_text-truthy (some s) (some t) h e = ground (arith, text_eq_iff s t)
same_text-truthy none (some t) h e = cc
same_text-truthy (some s) none h e = cc

not_sold :
    (sale : SaleRow) (line : SaleLineRow) (x : StockItem)
    → truthy line.epc ≡ true
    → IsUnlabeled x
    → sold_epc sale line x ≡ false
unfolding sold_epc is_sold_labeled
not_sold sale line x e h = ground (arith, same_text-truthy x.epc line.epc)

-- No row is selected for a line whose EPC is not empty.
no_sold_unit :
    (sale : SaleRow) (line : SaleLineRow) (rows : List Tracked)
    → truthy line.epc ≡ true
    → All IsUnlabeled (map (λ r. r.stored) rows)
    → length (matching (sold_epc sale line) rows) ≡ 0
unfolding matching
no_sold_unit sale line [] e h = refl
no_sold_unit sale line (r ∷ rows) e h =
    ground (arith, not_sold sale line r.stored e h.0, no_sold_unit sale line rows e h.1)

-- The item is of no line that has an EPC.
abbrev pub IsPlain : List SaleLineRow → SaleReturnItem → Type 0
IsPlain lines item =
    (line : SaleLineRow)
    → find_sale_line item.line_id lines ≡ some line
    → is_epc line.line_type ≡ true
    → truthy line.epc ≡ false

Ensures-any :
    (P : List Tracked → Type 0) (r : Result (List Tracked))
    → ((rows : List Tracked) → P rows)
    → Ensures P r
Ensures-any P (ok rows) h = h rows
Ensures-any P (err e) h = tt

module _ (strategy : LabelStrategy) (sale : SaleRow) (lines : List SaleLineRow)
    (base : List StockItem) (none_labeled : All IsUnlabeled base) where
  abbrev Same : List Tracked → Type 0
  Same = Tracks base (λ _. Unit {0})

  return_units-Same :
      (line : SaleLineRow) (item : SaleReturnItem) (rows : List Tracked)
      → Same rows
      → Ensures Same (return_units strategy sale line item rows)
  unfolding return_units
  return_units-Same line item rows h =
      Ensures-if Same (is_epc line.line_type) _ _
        (λ _.
          change_rows-Tracks base (λ _. Unit {0})
            (write (take_back (is_non_reusable line) strategy)) (sold_epc sale line) (λ _. refl)
            (λ _ _ _. tt) validation_error 1 rows h)
        (λ _.
          change_rows-Tracks base (λ _. Unit {0}) (write as_pending) (sold_sku sale line)
            (λ _. refl) (λ _ _ _. tt) validation_error item.qty rows h)

  return_units-IsPlain :
      (line : SaleLineRow) (item : SaleReturnItem) (rows : List Tracked)
      → Same rows
      → Ensures
          (λ _. is_epc line.line_type ≡ true → truthy line.epc ≡ false)
          (return_units strategy sale line item rows)
  unfolding return_units change_rows
  return_units-IsPlain line item rows h =
      let P = λ (_ : List Tracked). is_epc line.line_type ≡ true → truthy line.epc ≡ false in
      let stored = subst (All IsUnlabeled) (sym h.0) none_labeled in
      elim (Bool-cases (truthy line.epc)) [
        | inr plain ↦ Ensures-any P _ (λ _ _. plain)
        | inl full ↦
            Ensures-if P (is_epc line.line_type) _ _
              (λ _.
                Ensures-raise_if P (ltb (length (matching (sold_epc sale line) rows)) 1)
                  validation_error _
                  λ some_unit.
                    absurd (ground (arith, some_unit, no_sold_unit sale line rows full stored)))
              (λ sku. Ensures-any P _ (λ _ epc. absurd (ground (arith, sku, epc))))
      ]

module _ (c : Seller) (sale : SaleRow) (lines : List SaleLineRow) (base : List StockItem)
    (none_labeled : All IsUnlabeled base) where
  return_each-IsPlain :
      (k : ℕ) (items : List SaleReturnItem) (rows : List Tracked)
      → Tracks base (λ _. Unit {0}) rows
      → Ensures (λ _. All (IsPlain lines) items) (return_each c sale lines k items rows)
  unfolding return_each
  return_each-IsPlain k [] rows h = tt
  return_each-IsPlain k (item ∷ items) rows h =
      let P = λ (_ : Returned). All (IsPlain lines) (item ∷ items) in
      let strategy = c.policy.non_reusable_label_strategy in
      Ensures-bind P (or_raise (find_sale_line item.line_id lines) validation_error) _ λ line found.
        Ensures-bind P (return_units strategy sale line item rows) _ λ after e.
          let plain =
            Ensures-ok _ _
              (return_units-IsPlain strategy sale lines base none_labeled line item rows h) e in
          let same =
            Ensures-ok _ _
              (return_units-Same strategy sale lines base none_labeled line item rows h) e in
          Ensures-bind P (return_each c sale lines (suc k) items after) _ λ rest e'. (
            λ other known epc. ground (arith, known, or_raise-some _ _ found, epc, plain),
            Ensures-ok _ _ (return_each-IsPlain (suc k) items after same) e',
          )

refund_sale_items-IsPlain :
    (c : Seller) (payload : PosSaleActionRequest) (sale : SaleRow) (db : SaleDb)
    → All IsUnlabeled db.stock
    → Ensures
        (λ _. All (IsPlain (lines_of sale.id db.lines)) payload.return_items)
        (refund_sale_items c payload sale db)
unfolding refund_sale_items
refund_sale_items-IsPlain c payload sale db h =
    let lines = lines_of sale.id db.lines in
    let items = payload.return_items in
    let P = λ (_ : SaleDb). All (IsPlain lines) items in
    let cash = cash_of payload.refund_payments in
    Ensures-bind P (check_refund c payload sale db) _ λ subtotal _.
      Ensures-raise_if P
        (not (
          eq_ℤ (sum_amounts payload.refund_payments)
            (subtotal -ℤ c.policy.restocking_fee_of subtotal)))
        validation_error _
        λ _. Ensures-bind P (check_cash_session (caller_at c sale) cash db.vouchers.cash) _ λ _ _.
          Ensures-bind P (return_each c sale lines 0 items (begin db.stock)) _ λ rows e.
            Ensures-bind P (refund_cash (caller_at c sale) sale.id cash db.vouchers.cash) _
              λ drawer _.
                Ensures-ok _ _
                  (return_each-IsPlain c sale lines db.stock h 0 items (begin db.stock)
                    (begin-Tracks (λ _. Unit {0}) db.stock (λ _. tt)))
                  e

-- A checkout takes the EPC off the units that it sells, and a refund looks for the units of an EPC line
-- under that EPC: when no unit that was sold bears an EPC, then after a checkout that succeeds still
-- none does, and no refund succeeds then that has an item for an EPC line whose EPC is not empty.
pub checkout-refund-IsPlain :
    (c c' : Seller) (payload payload' : PosSaleActionRequest) (sale sale' : SaleRow)
    (db db' : SaleDb)
    → All IsUnlabeled db.stock
    → checkout_sale c payload sale db ≡ ok db'
    → All IsUnlabeled db'.stock
      × Ensures
          (λ _. All (IsPlain (lines_of sale'.id db'.lines)) payload'.return_items)
          (refund_sale_items c' payload' sale' db')
checkout-refund-IsPlain c c' payload payload' sale sale' db db' h e =
    let after =
      Ensures-ok (λ o. All IsUnlabeled o.stock) _ (checkout_sale-IsUnlabeled c payload sale db h)
        e in
    (after, refund_sale_items-IsPlain c' payload' sale' db' after)
