-- ===== src/Sales/Unlabeled.antt =====
-- A checkout of app/aris3/routers/pos_sales.py takes the EPCs off the units that it sells.
use aris_cloud.Prelude.{
  ap, refl, ◌≡◌, Bool, true, false, not, ◌&&◌, List, [], ◌∷◌, map, if◌then◌else◌, is_empty, arith,
  All, Option, none, some, is_some,
}
use aris_cloud.Prelude.Result.{
  Ensures, Ensures-bind, Ensures-ok, Ensures-if, Ensures-raise_if, validation_error,
  business_conflict,
}
use aris_cloud.Prelude.Text.{Text, text_eq}
use aris_cloud.Transfers.{StockItem, is_epc}
use aris_cloud.Transfers.Lines.{truthy}
use aris_cloud.Transfers.Stock.{Tracked, begin, commit, write, same_text}
use aris_cloud.Transfers.Tracks.{Tracks, change_rows-Tracks}
use aris_cloud.Payments.{validate_payments}
use aris_cloud.Cash.Flow.{checkout_cash}
use aris_cloud.Sales.{draft_sale, caller_at, check_cash_session}
use aris_cloud.Sales.Checkout.{advance_payments, total_due_of, check_advance, consume_advance}
use aris_cloud.Sales.{SaleRow, SaleLineRow, SaleDb, Seller, PosSaleActionRequest, sold, lines_of}
use aris_cloud.Sales.Checkout.{
  as_sold, as_sold_epc, unsold_epc, unsold_sku, sell_line, sell_lines, checkout_sale,
}

-- A unit that is sold and bears an EPC still.
unfoldable pub is_sold_labeled : StockItem → Bool
unfolding same_text truthy
is_sold_labeled x = same_text x.status sold && truthy x.epc

-- No unit that is sold bears an EPC.
abbrev pub IsUnlabeled : StockItem → Type 0
IsUnlabeled x = is_sold_labeled x ≡ false

-- The row so far: no EPC has come to it, and it bears none if it is sold.
abbrev Bare : Tracked → Type 0
Bare r = IsUnlabeled r.live × (is_some r.stored.epc ≡ false → is_some r.live.epc ≡ false)

-- The EPC that a sale leaves.
freed : (o : Option Text) → truthy (if truthy o then none else o) ≡ false
unfolding truthy
freed none = refl
freed (some []) = refl
freed (some (c ∷ s)) = refl

freed_none : (o : Option Text) → is_some o ≡ false → is_some (if truthy o then none else o) ≡ false
unfolding truthy
freed_none none h = refl
freed_none (some t) h = cc

bare : (o : Option Text) → is_some o ≡ false → truthy o ≡ false
unfolding truthy
bare none h = refl
bare (some t) h = cc

as_sold_epc-Bare : (r : Tracked) → Bare r → Bare (write as_sold_epc r)
unfolding as_sold_epc is_sold_labeled
as_sold_epc-Bare r h = (ground (arith, freed r.live.epc), λ e. freed_none r.live.epc (h.1 e))

as_sold-Bare : (r : Tracked) → is_some r.stored.epc ≡ false → Bare r → Bare (write as_sold r)
unfolding is_sold_labeled
as_sold-Bare r e h = (ground (arith, bare r.live.epc (h.1 e)), h.1)

unsold_sku_bare :
    (sale : SaleRow) (line : SaleLineRow) (x : StockItem)
    → unsold_sku sale line x ≡ true
    → is_some x.epc ≡ false
unfolding unsold_sku
unsold_sku_bare sale line x e = ground arith

module _ (base : List StockItem) (sale : SaleRow) where
  sell_line-Bare :
      (line : SaleLineRow) (rows : List Tracked)
      → Tracks base Bare rows
      → Ensures (Tracks base Bare) (sell_line sale line rows)
  unfolding sell_line
  sell_line-Bare line rows h =
      Ensures-if (Tracks base Bare) (is_epc line.line_type) _ _
        (λ _.
          change_rows-Tracks base Bare (write as_sold_epc) (unsold_epc sale line) (λ _. refl)
            (λ r _ b. as_sold_epc-Bare r b) validation_error 1 rows h)
        (λ _.
          change_rows-Tracks base Bare (write as_sold) (unsold_sku sale line) (λ _. refl)
            (λ r e b. as_sold-Bare r (unsold_sku_bare sale line r.stored e) b) validation_error
            line.qty rows h)

  sell_lines-Bare :
      (lines : List SaleLineRow) (rows : List Tracked)
      → Tracks base Bare rows
      → Ensures (Tracks base Bare) (sell_lines sale lines rows)
  unfolding sell_lines
  sell_lines-Bare [] rows h = h
  sell_lines-Bare (line ∷ lines) rows h =
      Ensures-bind (Tracks base Bare) (sell_line sale line rows) _ λ after e.
        sell_lines-Bare lines after (Ensures-ok (Tracks base Bare) _ (sell_line-Bare line rows h) e)

kept :
    (b : Bool) (x : StockItem) (xs : List StockItem)
    → IsUnlabeled x
    → All IsUnlabeled xs
    → All IsUnlabeled (if b then xs else x ∷ xs)
kept true x xs h all = all
kept false x xs h all = (h, all)

commit-Bare : (rows : List Tracked) → All Bare rows → All IsUnlabeled (commit rows)
unfolding commit
commit-Bare [] h = tt
commit-Bare (r ∷ rows) h = kept r.deleted r.live (commit rows) h.0.0 (commit-Bare rows h.1)

begin-Bare : (stock : List StockItem) → All IsUnlabeled stock → Tracks stock Bare (begin stock)
unfolding begin
begin-Bare [] h = (refl, tt)
begin-Bare (x ∷ stock) h =
    let rest = begin-Bare stock h.1 in (ap (λ xs. x ∷ xs) rest.0, ((h.0, λ e. e), rest.1))

pub checkout_sale-IsUnlabeled :
    (c : Seller) (payload : PosSaleActionRequest) (sale : SaleRow) (db : SaleDb)
    → All IsUnlabeled db.stock
    → Ensures (λ db'. All IsUnlabeled db'.stock) (checkout_sale c payload sale db)
unfolding checkout_sale
checkout_sale-IsUnlabeled c payload sale db h =
    let P = λ (db' : SaleDb). All IsUnlabeled db'.stock in
    let lines = lines_of sale.id db.lines in
    let advances = advance_payments payload.payments in
    Ensures-raise_if P (not (text_eq sale.status draft_sale)) business_conflict _ λ _.
      Ensures-raise_if P (is_empty lines) validation_error _ λ _.
        Ensures-bind P
          (validate_payments (map (λ p. p.payment) payload.payments) (total_due_of lines)) _
          λ totals _.
            Ensures-bind P (check_advance c sale (total_due_of lines) advances db.vouchers) _ λ _ _.
              Ensures-bind P
                (check_cash_session (caller_at c sale) totals.cash_total db.vouchers.cash) _
                λ _ _. Ensures-bind P (sell_lines sale lines (begin db.stock)) _ λ rows e.
                  Ensures-bind P (consume_advance c sale advances db.vouchers) _ λ vouchers _.
                    Ensures-bind P
                      (checkout_cash (caller_at c sale) sale.id totals.cash_total totals.change_due
                        vouchers.cash)
                      _
                      λ drawer _.
                        commit-Bare rows
                          (Ensures-ok (Tracks db.stock Bare) _
                            (sell_lines-Bare db.stock sale lines (begin db.stock)
                              (begin-Bare db.stock h))
                            e).1
