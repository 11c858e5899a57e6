-- ===== src/Transfers/Kept/Dispatch.antt =====
-- The stock under the actions `dispatch` and `cancel` of app/aris3/routers/transfers.py.
use aris_cloud.Prelude.{ℕ, refl, not, List, [], ◌∷◌}
use aris_cloud.Prelude.Result.{
  Ensures, Ensures-bind, Ensures-ok, Ensures-if, Ensures-raise_if, validation_error,
  business_conflict,
}
use aris_cloud.Transfers.{
  StockItem, Transfer, TransferLine, TransferDb, is_epc, is_dispatched, get_lines,
}
use aris_cloud.Transfers.Stock.{Tracked, begin, at, in_transit_sku, in_transit_epc}
use aris_cloud.Transfers.Lines.{
  truthy, epc_row, sku_filters, validate_transferable_epc_stock, validate_transferable_sku_stock,
}
use aris_cloud.Transfers.Tracks.{Tracks}
use aris_cloud.Transfers.Actions.Dispatch.{
  to_transit, to_transit_from, put_back, dispatch_epc, dispatch_sku, dispatch_line, dispatch_lines,
  cancel_epc, cancel_line, cancel_lines, cancel_stock,
}
use aris_cloud.Transfers.Kept.{
  BearsMoves, write_first, write_rows, validate_epc-Tracks, in_transit_sku-IsOfTenant,
  in_transit_epc-IsOfTenant, sku_filters-IsOfTenant, epc_row-IsOfTenant,
}

module _ {κ} (base : List StockItem) (tenant : ℕ) (Q : Tracked → Type κ)
    (moves : BearsMoves tenant Q) where
  abbrev T : List Tracked → Type κ
  T = Tracks base Q

  dispatch_line-Tracks :
      (origin : ℕ) (line : TransferLine) (rows : List Tracked)
      → T rows
      → Ensures T (dispatch_line tenant origin line rows)
  unfolding dispatch_line dispatch_epc dispatch_sku
  dispatch_line-Tracks origin line rows h =
      let s = line.snapshot in
      Ensures-if T (is_epc line.line_type) _ _
        (λ _. Ensures-raise_if T (not (truthy s.epc)) validation_error _ λ _.
          Ensures-bind T
            (validate_transferable_epc_stock tenant origin s.epc s.location_code s.pool rows) _
            λ found e.
              write_first base tenant Q moves (to_transit_from origin) (epc_row tenant s.epc)
                (λ _. refl) (epc_row-IsOfTenant tenant s.epc) 1 found.1
                (Ensures-ok (λ o. T o.1) _
                  (validate_epc-Tracks base tenant Q moves origin s.epc s.location_code s.pool rows
                    h)
                  e))
        (λ _.
          Ensures-bind T
            (validate_transferable_sku_stock tenant origin line.qty s.location_code s.pool s rows) _
            λ _ _.
              write_first base tenant Q moves to_transit
                (sku_filters tenant origin s.location_code s.pool s) (λ _. refl)
                (sku_filters-IsOfTenant tenant origin s.location_code s.pool s) line.qty rows h)

  pub dispatch_lines-Tracks :
      (origin : ℕ) (lines : List TransferLine) (rows : List Tracked)
      → T rows
      → Ensures T (dispatch_lines tenant origin lines rows)
  unfolding dispatch_lines
  dispatch_lines-Tracks origin [] rows h = h
  dispatch_lines-Tracks origin (line ∷ lines) rows h =
      Ensures-bind T (dispatch_line tenant origin line rows) _ λ after e.
        dispatch_lines-Tracks origin lines after
          (Ensures-ok T _ (dispatch_line-Tracks origin line rows h) e)

  cancel_line-Tracks :
      (origin : ℕ) (line : TransferLine) (rows : List Tracked)
      → T rows
      → Ensures T (cancel_line tenant origin line rows)
  unfolding cancel_line cancel_epc
  cancel_line-Tracks origin line rows h =
      let s = line.snapshot in
      Ensures-if T (is_epc line.line_type) _ _
        (λ _. Ensures-raise_if T (not (truthy s.epc)) validation_error _ λ _.
          write_rows base tenant Q moves (put_back s) (in_transit_epc tenant (at origin) s.epc)
            (λ _. refl) (in_transit_epc-IsOfTenant tenant (at origin) s.epc) business_conflict 1
            rows h)
        (λ _.
          write_rows base tenant Q moves (put_back s) (in_transit_sku tenant (at origin) s)
            (λ _. refl) (in_transit_sku-IsOfTenant tenant (at origin) s) business_conflict line.qty
            rows h)

  cancel_lines-Tracks :
      (origin : ℕ) (lines : List TransferLine) (rows : List Tracked)
      → T rows
      → Ensures T (cancel_lines tenant origin lines rows)
  unfolding cancel_lines
  cancel_lines-Tracks origin [] rows h = h
  cancel_lines-Tracks origin (line ∷ lines) rows h =
      Ensures-bind T (cancel_line tenant origin line rows) _ λ after e.
        cancel_lines-Tracks origin lines after
          (Ensures-ok T _ (cancel_line-Tracks origin line rows h) e)

  pub cancel_stock-Tracks :
      (t : Transfer) (db : TransferDb) → T (begin db.stock) → Ensures T (cancel_stock tenant t db)
  unfolding cancel_stock
  cancel_stock-Tracks t db h =
      Ensures-if T (is_dispatched t.status) _ _
        (λ _. cancel_lines-Tracks t.origin_store_id (get_lines t.id db.lines) (begin db.stock) h)
        (λ _. h)
