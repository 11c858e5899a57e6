-- ===== src/Sales/Duplicates.antt =====
-- Two lines of one SKU in a sale: the selects of a checkout in app/aris3/routers/pos_sales.py read the
-- stored stock, so the second line finds the units of the first.
use aris_cloud.Prelude.{
  ℕ, ◌-◌, ◌≤◌, ◌∙◌, ap, refl, ◌≡◌, Bool, true, false, ◌&&◌, List, [], ◌∷◌, if◌then◌else◌, arith,
  length, ltb,
}
use aris_cloud.Prelude.Result.{ok, AppError, validation_error}
use aris_cloud.Transfers.{StockItem, is_epc}
use aris_cloud.Transfers.Stock.{Tracked, matching, change_first, change_rows, write}
use aris_cloud.Sales.{SaleRow, SaleLineRow}
use aris_cloud.Sales.Checkout.{as_sold, unsold_sku, sell_line}

module _ (g : Tracked → Tracked) (p : StockItem → Bool)
    (same : (r : Tracked) → (g r).stored ≡ r.stored) (again : (r : Tracked) → g (g r) ≡ g r) where
  abbrev changed : Bool → Tracked → Tracked
  changed b r = if b then g r else r

  changed_stored : (b : Bool) (r : Tracked) → (changed b r).stored ≡ r.stored
  changed_stored true r = same r
  changed_stored false r = refl

  changed_again :
      (b b' : Bool) (r : Tracked) → (b' ≡ true → b ≡ true) → changed b' (changed b r) ≡ changed b r
  changed_again true true r h = again r
  changed_again true false r h = refl
  changed_again false true r h = absurd (ground (arith, h refl))
  changed_again false false r h = refl

  change_first-again :
      (n m : ℕ) (rows : List Tracked)
      → m ≤ n
      → change_first g p m (change_first g p n rows) ≡ change_first g p n rows
  unfolding change_first
  change_first-again n m [] h = refl
  change_first-again n m (r ∷ rows) h =
      let hit = p r.stored && ltb 0 n in
      let hit' = p r.stored && ltb 0 m in
      let n' = if hit then n - 1 else n in
      let m' = if hit' then m - 1 else m in
      let rest = change_first g p n' rows in
      ap
        (λ s.
          changed (p s && ltb 0 m) (changed hit r)
          ∷ change_first g p (if p s && ltb 0 m then m - 1 else m) rest)
        (changed_stored hit r)
      ∙ ap (λ x. x ∷ change_first g p m' rest) (changed_again hit hit' r (λ e. ground arith))
      ∙ ap (λ xs. changed hit r ∷ xs) (change_first-again n' m' rows (ground arith))

  matching-again :
      (n : ℕ) (rows : List Tracked)
      → length (matching p (change_first g p n rows)) ≡ length (matching p rows)
  unfolding change_first matching
  matching-again n [] = refl
  matching-again n (r ∷ rows) =
      let hit = p r.stored && ltb 0 n in
      ground (arith, changed_stored hit r, matching-again (if hit then n - 1 else n) rows)

  -- The same select, with no greater limit, is accepted again, and changes nothing.
  pub change_rows-again :
      (err : AppError) (n m : ℕ) (rows after : List Tracked)
      → m ≤ n
      → change_rows g err p n rows ≡ ok after
      → change_rows g err p m after ≡ ok after
  unfolding change_rows
  change_rows-again err n m rows after less e =
      let changed_by_first : change_first g p n rows ≡ after = ground (arith, e) in
      let enough : n ≤ length (matching p rows) = ground (arith, e) in
      ground
        (arith, changed_by_first, enough, change_first-again n m rows less, matching-again n rows)

-- A line of a SKU and a second one of the same SKU, place and pool with no greater quantity: once the
-- first has sold its units, the second is accepted too, and sells no unit.
pub sell_line-again :
    (sale : SaleRow) (line : SaleLineRow) (id qty : ℕ) (rows after : List Tracked)
    → is_epc line.line_type ≡ false
    → qty ≤ line.qty
    → sell_line sale line rows ≡ ok after
    → sell_line sale (record line { id = id; qty = qty }) after ≡ ok after
unfolding sell_line
sell_line-again sale line id qty rows after sku less e =
    let again =
      change_rows-again (write as_sold) (unsold_sku sale line) (λ _. refl) (λ _. refl)
        validation_error line.qty qty rows after less in
    ground (arith, sku, e, again)
