-- ===== src/Transfers/Kept/Drafts.antt =====
-- The stock under `create_transfer` and `update_transfer` of app/aris3/routers/transfers.py, and under
-- a resolution that finds what was missing.
use aris_cloud.Prelude.{ℕ, ◌&&◌, List, [], ◌∷◌, if◌then◌else◌, is_empty, first, Option, none, some}
use aris_cloud.Prelude.Result.{
  or_raise, Ensures, Ensures-bind, Ensures-ok, Ensures-if, Ensures-raise_if, validation_error,
  business_conflict,
}
use aris_cloud.Prelude.{ℕ, ◌&&◌, List, [], ◌∷◌, if◌then◌else◌, is_empty, first, Option, none, some}
use aris_cloud.Prelude.Result.{
  or_raise, Ensures, Ensures-bind, Ensures-ok, Ensures-if, Ensures-raise_if, validation_error,
  business_conflict,
}
use aris_cloud.Prelude.Text.{Text, member}
use aris_cloud.Transfers.{
  StockItem, Transfer, TransferLine, TransferLineCreate, TransferShortageLine, found_and_resend,
  TransferDb, is_epc, get_lines, Caller,
}
use aris_cloud.Transfers.Stock.{Tracked, begin, matching}
use aris_cloud.Transfers.Totals.{MovementTotals}
use aris_cloud.Transfers.Lines.{
  sku_filters, validate_transferable_epc_stock, validate_transferable_sku_stock,
  validate_transfer_snapshot, get_transfer_conflict_for_epc, normalize_sku_line, normalize_epc_line,
  normalize_transfer_line, normalize_transfer_lines, line_epc,
}
use aris_cloud.Transfers.Drafts.{update_lines}
use aris_cloud.Transfers.Tracks.{Tracks}
use aris_cloud.Transfers.Actions.Shortages.{check_resolution_line, resolve_units, resolve_each}
use aris_cloud.Transfers.Kept.{BearsMoves, validate_epc-Tracks, revalidate-Tracks}

module _ {κ} (base : List StockItem) (tenant : ℕ) (Q : Tracked → Type κ)
    (moves : BearsMoves tenant Q) where
  abbrev Follows : TransferLineCreate × List Tracked → Type κ
  Follows done = Tracks base Q done.1

  normalize_line-Tracks :
      (origin : ℕ) (exclude : Option ℕ) (db : TransferDb) (line : TransferLineCreate)
      (rows : List Tracked)
      → Tracks base Q rows
      → Ensures Follows (normalize_transfer_line tenant origin exclude db line rows)
  unfolding normalize_transfer_line normalize_epc_line normalize_sku_line
  normalize_line-Tracks origin exclude db line rows h =
      let s = line.snapshot in
      Ensures-bind Follows (validate_transfer_snapshot line) _ λ _ _.
        Ensures-if Follows (is_epc line.line_type) _ _
          (λ _.
            Ensures-bind Follows
              (validate_transferable_epc_stock tenant origin s.epc none none rows) _
              λ found e.
                Ensures-raise_if Follows
                  (get_transfer_conflict_for_epc tenant s.epc origin exclude db) business_conflict _
                  λ _.
                    Ensures-ok (λ o. Tracks base Q o.1) _
                      (validate_epc-Tracks base tenant Q moves origin s.epc none none rows h) e)
          (λ _.
            Ensures-bind Follows
              (validate_transferable_sku_stock tenant origin line.qty none none s rows) _
              λ _ _.
                Ensures-bind Follows
                  (or_raise (first (matching (sku_filters tenant origin none none s) rows))
                    business_conflict)
                  _ λ _ _. h)

  pub normalize_lines-Tracks :
      (origin : ℕ) (exclude : Option ℕ) (db : TransferDb) (seen : List Text)
      (lines : List TransferLineCreate) (rows : List Tracked)
      → Tracks base Q rows
      → Ensures
          (λ done. Tracks base Q done.1)
          (normalize_transfer_lines tenant origin exclude db seen lines rows)
  unfolding normalize_transfer_lines
  normalize_lines-Tracks origin exclude db seen [] rows h = h
  normalize_lines-Tracks origin exclude db seen (line ∷ lines) rows h =
      let P = λ (done : List TransferLineCreate × List Tracked). Tracks base Q done.1 in
      let seen_epcs = if is_epc line.line_type then line_epc line ∷ seen else seen in
      Ensures-raise_if P (is_epc line.line_type && member (line_epc line) seen) validation_error _
        λ _. Ensures-bind P (normalize_transfer_line tenant origin exclude db line rows) _ λ one e.
          let tracked =
            Ensures-ok Follows _ (normalize_line-Tracks origin exclude db line rows h) e in
          Ensures-bind P (normalize_transfer_lines tenant origin exclude db seen_epcs lines one.1) _
            λ rest e'.
              Ensures-ok P _
                (normalize_lines-Tracks origin exclude db seen_epcs lines one.1 tracked) e'

  pub update_lines-Tracks :
      (c : Caller) (transfer origin : ℕ) (lines : Option (List TransferLineCreate))
      (db : TransferDb)
      → Tracks base Q (begin db.stock)
      → Ensures (λ done. Tracks base Q done.1) (update_lines c tenant transfer origin lines db)
  unfolding update_lines
  update_lines-Tracks c transfer origin (some lines) db h =
      let P = λ (done : List TransferLine × List Tracked). Tracks base Q done.1 in
      Ensures-raise_if P (is_empty lines) validation_error _ λ _.
        Ensures-bind P
          (normalize_transfer_lines tenant origin (some transfer) db [] lines (begin db.stock)) _
          λ done e.
            Ensures-ok (λ o. Tracks base Q o.1) _
              (normalize_lines-Tracks origin (some transfer) db [] lines (begin db.stock) h) e
  update_lines-Tracks c transfer origin none db h =
      let P = λ (done : List TransferLine × List Tracked). Tracks base Q done.1 in
      Ensures-bind P _ _ λ rows e.
        Ensures-ok (Tracks base Q) _
          (revalidate-Tracks base tenant Q moves origin transfer db (get_lines transfer db.lines)
            (begin db.stock) h)
          e

  pub resolve_found-Tracks :
      (t : Transfer) (lines : List TransferLine) (totals : MovementTotals)
      (ss : List TransferShortageLine) (rows : List Tracked)
      → Tracks base Q rows
      → Ensures (Tracks base Q) (resolve_each tenant found_and_resend t lines totals ss rows)
  unfolding resolve_each resolve_units
  resolve_found-Tracks t lines totals [] rows h = h
  resolve_found-Tracks t lines totals (s ∷ ss) rows h =
      Ensures-bind (Tracks base Q) (check_resolution_line lines totals s) _
        λ line _. resolve_found-Tracks t lines totals ss rows h
