-- ===== src/Sales/Twice.antt =====
-- An item that stands twice in the list of a refund: the loop over the items in
-- app/aris3/routers/pos_sales.py compares each with what was refunded before the request.
use aris_cloud.Prelude.{
  ℕ, suc, ◌+◌, ◌++◌, length, ap, refl, ◌≡◌, Bool, true, false, List, [], ◌∷◌, arith,
}
use aris_cloud.Prelude.Int.{ℤ, pos, ◌+ℤ◌, int_laws}
use aris_cloud.Prelude.Result.{Result, ok, err, ◌>>=◌, or_raise, validation_error}
use aris_cloud.Returns.{PosReturnEvent}
use aris_cloud.Transfers.{StockItem}
use aris_cloud.Transfers.Stock.{Tracked, write}
use aris_cloud.Sales.{
  Seller, SaleRow, SaleLineRow, SaleReturnItem, LabelStrategy, assign_new_epc, to_pending,
  find_sale_line,
}
use aris_cloud.Sales.Refund.{
  Returned, new_unit, refund_line, refund_subtotal, take_back, as_pending, is_non_reusable,
  sold_epc, sold_sku, return_units, return_each,
}
use aris_cloud.Sales.Duplicates.{change_rows-again}

take_back_again :
    (b : Bool) (strategy : LabelStrategy) (x : StockItem)
    → take_back b strategy (take_back b strategy x) ≡ take_back b strategy x
unfolding take_back
take_back_again true assign_new_epc x = refl
take_back_again true to_pending x = refl
take_back_again false strategy x = refl

return_units-again :
    (strategy : LabelStrategy) (sale : SaleRow) (item : SaleReturnItem) (line : SaleLineRow)
    (rows after : List Tracked)
    → return_units strategy sale line item rows ≡ ok after
    → return_units strategy sale line item after ≡ ok after
unfolding return_units
return_units-again strategy sale item line rows after e =
    let back = take_back (is_non_reusable line) strategy in
    let epc_again =
      change_rows-again (write back) (sold_epc sale line) (λ _. refl)
        (λ r.
          ap (λ x. record r { live = x }) (take_back_again (is_non_reusable line) strategy r.live))
        validation_error 1 1 rows after (ground arith) in
    let sku_again =
      change_rows-again (write as_pending) (sold_sku sale line) (λ _. refl) (λ _. refl)
        validation_error item.qty item.qty rows after (ground arith) in
    ground (arith, e, epc_again, sku_again)

sum_twice :
    (r : Result ℤ) (amount : ℤ)
    → (do a ← r; ok (a +ℤ pos 0)) ≡ ok amount
    → (do a ← r; rest ← (do b ← r; ok (b +ℤ pos 0)); ok (a +ℤ rest)) ≡ ok (amount +ℤ amount)
sum_twice (err e) amount h = absurd (ground (arith, h))
sum_twice (ok a) amount h = let zero : a +ℤ pos 0 ≡ a = omega int_laws in ground (arith, h, zero)

length-++ : (xs ys : List StockItem) → length (xs ++ ys) ≡ length xs + length ys
length-++ [] ys = omega arith
length-++ (x ∷ xs) ys = let rest = length-++ xs ys in omega (arith, rest)

length-new_unit :
    (c : Seller) (sale : SaleRow) (line : SaleLineRow) (k : ℕ)
    → length (new_unit c sale line (suc k)) ≡ length (new_unit c sale line k)
unfolding new_unit
length-new_unit c sale line k = ground arith

abbrev prepended : List StockItem → Returned → Returned
prepended xs r = record r { added = xs ++ r.added }

abbrev finished : List StockItem → List Tracked → Returned
finished xs rows = prepended xs (record { rows = rows; added = [] })

-- What an item does to the rows, and then again.
after_units :
    (g : List Tracked → Result (List Tracked)) (xs ys : List StockItem) (rows : List Tracked)
    (once : Returned)
    → ((x y : List Tracked) → g x ≡ ok y → g y ≡ ok y)
    → length ys ≡ length xs
    → (m : Result (List Tracked)) → g rows ≡ m
    → (do x ← m; ok (finished xs x)) ≡ ok once
    → (twice : Returned) × ((do
      x ← m
      rest ← (do y ← g x; ok (finished ys y))
      ok (prepended xs rest))
        ≡ ok twice)
      × (twice.rows ≡ once.rows)
      × (length twice.added ≡ length once.added + length once.added)
after_units g xs ys rows once again same (err e) first_time h = absurd (ground (arith, h))
after_units g xs ys rows once again same (ok x) first_time h = (
  record { rows = x; added = xs ++ (ys ++ []) },
  rw (again rows x first_time) refl,
  ground (arith, h),
  ground (arith, h, same, length-++ xs (ys ++ []), length-++ ys [], length-++ xs []),
)

item_twice :
    {A : Type 0} (o : Result A) (f : A → List Tracked → Result (List Tracked))
    (new : A → ℕ → List StockItem) (k : ℕ) (rows : List Tracked) (once : Returned)
    → ((a : A) (x y : List Tracked) → f a x ≡ ok y → f a y ≡ ok y)
    → ((a : A) → length (new a (suc k)) ≡ length (new a k))
    → (do a ← o; x ← f a rows; ok (finished (new a k) x)) ≡ ok once
    → (twice : Returned) × ((do
      a ← o
      x ← f a rows
      rest ← (do b ← o; y ← f b x; ok (finished (new b (suc k)) y))
      ok (prepended (new a k) rest))
        ≡ ok twice)
      × (twice.rows ≡ once.rows)
      × (length twice.added ≡ length once.added + length once.added)
item_twice (err e) f new k rows once again same h = absurd (ground (arith, h))
item_twice (ok a) f new k rows once again same h =
    after_units (f a) (new a k) (new a (suc k)) rows once (again a) (same a) (f a rows) refl h

-- When an item passes alone, in the sum and in the stock, then it passes as well when the list has it
-- twice: the subtotal counts it twice, the stock takes its units back once, and the rows that are added
-- under a new label are twice as many.
pub return_each-twice :
    (c : Seller) (lines : List SaleLineRow) (events : List PosReturnEvent) (item : SaleReturnItem)
    (amount : ℤ) (sale : SaleRow) (k : ℕ) (rows : List Tracked) (once : Returned)
    → refund_subtotal lines events (item ∷ []) ≡ ok amount
    → return_each c sale lines k (item ∷ []) rows ≡ ok once
    → (refund_subtotal lines events (item ∷ item ∷ []) ≡ ok (amount +ℤ amount))
      × (twice : Returned) × (return_each c sale lines k (item ∷ item ∷ []) rows ≡ ok twice)
      × (twice.rows ≡ once.rows)
      × (length twice.added ≡ length once.added + length once.added)
unfolding refund_subtotal return_each
return_each-twice c lines events item amount sale k rows once counted returned =
    let strategy = c.policy.non_reusable_label_strategy in
    let stock =
      item_twice (or_raise (find_sale_line item.line_id lines) validation_error)
        (λ line. return_units strategy sale line item) (new_unit c sale) k rows once
        (return_units-again strategy sale item) (λ line. length-new_unit c sale line k) returned in
    (sum_twice (refund_line lines events item) amount counted, stock.0, stock.1, stock.2, stock.3)
