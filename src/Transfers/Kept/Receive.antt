-- ===== src/Transfers/Kept/Receive.antt =====
-- The stock under the actions `receive` and `resolve_shortages` of app/aris3/routers/transfers.py.
use aris_cloud.Prelude.{ℕ, refl, Bool, not, List, [], ◌∷◌, ◌==◌}
use aris_cloud.Prelude.Result.{
  Ensures, Ensures-bind, Ensures-ok, Ensures-if, Ensures-raise_if, AppError, validation_error,
}
use aris_cloud.Prelude.Text.{Text}
use aris_cloud.Transfers.{
  StockItem, Transfer, TransferLine, TransferReceiveLine, TransferShortageLine, ResolutionType,
  found_and_resend, lost_in_route, is_epc,
}
use aris_cloud.Transfers.Stock.{
  Tracked, change_rows, delete, at, at_or_nowhere, anywhere, in_transit_sku, in_transit_epc,
}
use aris_cloud.Transfers.Totals.{MovementTotals}
use aris_cloud.Transfers.Lines.{truthy}
use aris_cloud.Transfers.Tracks.{Tracks, change_rows-Tracks}
use aris_cloud.Transfers.Actions.Receive.{
  arrive, receive_epc, receive_units, check_receive_line, receive_line, receive_each,
}
use aris_cloud.Transfers.Actions.Shortages.{
  lose_units, resolve_units, check_resolution_line, resolve_each,
}
use aris_cloud.Transfers.Kept.{
  BearsMoves, BearsDeletion, IsOfTenant, write_rows, in_transit_sku-IsOfTenant,
  in_transit_epc-IsOfTenant,
}

module _ {κ} (base : List StockItem) (tenant : ℕ) (Q : Tracked → Type κ)
    (moves : BearsMoves tenant Q) where
  abbrev T : List Tracked → Type κ
  T = Tracks base Q

  module _ (id_text : ℕ → Text) (t : Transfer) where
    receive_units-Tracks :
        (line : TransferLine) (r : TransferReceiveLine) (rows : List Tracked)
        → T rows
        → Ensures T (receive_units id_text tenant t line r rows)
    unfolding receive_units receive_epc
    receive_units-Tracks line r rows h =
        let s = line.snapshot in
        let f = arrive id_text t.destination_store_id r in
        Ensures-if T (is_epc line.line_type) _ _
          (λ _. Ensures-raise_if T (not (r.qty == 1)) validation_error _ λ _.
            Ensures-raise_if T (not (truthy s.epc)) validation_error _ λ _.
              write_rows base tenant Q moves f
                (in_transit_epc tenant (at_or_nowhere t.origin_store_id) s.epc) (λ _. refl)
                (in_transit_epc-IsOfTenant tenant (at_or_nowhere t.origin_store_id) s.epc)
                validation_error 1 rows h)
          (λ _.
            write_rows base tenant Q moves f (in_transit_sku tenant (at t.origin_store_id) s)
              (λ _. refl) (in_transit_sku-IsOfTenant tenant (at t.origin_store_id) s)
              validation_error r.qty rows h)

    pub receive_line-Tracks :
        (lines : List TransferLine) (totals : MovementTotals) (r : TransferReceiveLine)
        (rows : List Tracked)
        → T rows
        → Ensures T (receive_line id_text tenant t lines totals r rows)
    unfolding receive_line
    receive_line-Tracks lines totals r rows h =
        Ensures-bind T (check_receive_line lines totals r) _
          λ line _. receive_units-Tracks line r rows h

    pub receive_each-Tracks :
        (lines : List TransferLine) (totals : MovementTotals) (rs : List TransferReceiveLine)
        (rows : List Tracked)
        → T rows
        → Ensures T (receive_each id_text tenant t lines totals rs rows)
    unfolding receive_each
    receive_each-Tracks lines totals [] rows h = h
    receive_each-Tracks lines totals (r ∷ rs) rows h =
        Ensures-bind T (receive_line id_text tenant t lines totals r rows) _ λ after e.
          receive_each-Tracks lines totals rs after
            (Ensures-ok T _ (receive_line-Tracks lines totals r rows h) e)

module _ {κ} (base : List StockItem) (tenant : ℕ) (Q : Tracked → Type κ)
    (deletion : BearsDeletion tenant Q) where
  delete_rows :
      (p : StockItem → Bool)
      → IsOfTenant tenant p
      → (e : AppError) (n : ℕ) (rows : List Tracked) → Tracks base Q rows
      → Ensures (Tracks base Q) (change_rows delete e p n rows)
  delete_rows p of e n rows h =
      change_rows-Tracks base Q delete p (λ _. refl) (λ r eq. deletion r (of r.stored eq)) e n rows
        h

  resolve_units-Tracks :
      (k : ResolutionType) (t : Transfer) (line : TransferLine) (s : TransferShortageLine)
      (rows : List Tracked)
      → Tracks base Q rows
      → Ensures (Tracks base Q) (resolve_units tenant k t line s rows)
  unfolding resolve_units lose_units
  resolve_units-Tracks found_and_resend t line s rows h = h
  resolve_units-Tracks lost_in_route t line s rows h =
      Ensures-if (Tracks base Q) (is_epc line.line_type) _ _
        (λ _.
          delete_rows (in_transit_epc tenant anywhere line.snapshot.epc)
            (in_transit_epc-IsOfTenant tenant anywhere line.snapshot.epc) validation_error 1 rows h)
        (λ _.
          delete_rows (in_transit_sku tenant (at_or_nowhere t.origin_store_id) line.snapshot)
            (in_transit_sku-IsOfTenant tenant (at_or_nowhere t.origin_store_id) line.snapshot)
            validation_error s.qty rows h)

  pub resolve_each-Tracks :
      (k : ResolutionType) (t : Transfer) (lines : List TransferLine) (totals : MovementTotals)
      (ss : List TransferShortageLine) (rows : List Tracked)
      → Tracks base Q rows
      → Ensures (Tracks base Q) (resolve_each tenant k t lines totals ss rows)
  unfolding resolve_each
  resolve_each-Tracks k t lines totals [] rows h = h
  resolve_each-Tracks k t lines totals (s ∷ ss) rows h =
      Ensures-bind (Tracks base Q) (check_resolution_line lines totals s) _ λ line _.
        Ensures-bind (Tracks base Q) (resolve_units tenant k t line s rows) _ λ after e.
          resolve_each-Tracks k t lines totals ss after
            (Ensures-ok (Tracks base Q) _ (resolve_units-Tracks k t line s rows h) e)
