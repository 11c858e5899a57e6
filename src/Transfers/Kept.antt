-- ===== src/Transfers/Kept.antt =====
-- The stock under the actions of app/aris3/routers/transfers.py: the loops over a transfer's lines, for
-- any property of a row that a move within the tenant keeps.
pub mod Dispatch
pub mod Receive
pub mod Drafts
use aris_cloud.Prelude.{
  ℕ, suc, ◌+◌, ◌-◌, ◌≤◌, ◌<◌, ◌↔◌, ◌∙◌, ap, inr, inl, sym, Bool-cases, refl, ◌≡◌, ◌≢◌, Bool, true,
  false, not, ◌&&◌, ◌||◌, List, [], ◌∷◌, ◌++◌, map, if◌then◌else◌, is_empty, arith, All, any,
  select, first, length, ◌⊎◌, Option, none, some, ◌==◌, ltb, leb, max, is_some, is_just, or_else,
  first_some, ==_iff, Option-cases,
}
use aris_cloud.Prelude.Int.{
  ℤ, pos, negsuc, ◌+ℤ◌, ◌-ℤ◌, ◌≤ℤ◌, leb_ℤ, ltb_ℤ, int_laws, +ℤ_parts, -ℤ_parts, eq_of_parts,
}
use aris_cloud.Prelude.Result.{
  Result, ok, err, ◌>>=◌, ◌>>◌, raise_if, or_raise, Ensures, Ensures-bind, Ensures-map,
  or_raise-some, Ensures-ok, Ensures-if, Ensures-raise_if, AppError, validation_error,
  business_conflict, resource_not_found, permission_denied, idempotency_key_required,
  idempotency_request_in_progress, idempotency_key_reused_with_different_payload,
}
use aris_cloud.Prelude.Text.{Text}
use aris_cloud.Transfers.{
  StockItem, Transfer, TransferLine, TransferLineSnapshot, TransferReceiveLine,
  TransferShortageLine, ResolutionType, found_and_resend, lost_in_route, TransferDb, is_epc,
  is_dispatched, get_lines,
}
use aris_cloud.Transfers.Stock.{
  Tracked, begin, matching, change_first, change_rows, write, delete, at, at_or_nowhere, anywhere,
  in_transit_sku, in_transit_epc, transfer_sku_filters,
}
use aris_cloud.Transfers.Totals.{MovementTotals}
use aris_cloud.Transfers.Lines.{
  truthy, settle, epc_row, check_epc_row, sku_filters, validate_transferable_epc_stock,
  validate_transferable_sku_stock, assert_draft_line_not_stale, get_transfer_conflict_for_epc,
  revalidate_epc_line, revalidate_sku_line, revalidate_draft_line, revalidate_existing_draft_lines,
}
use aris_cloud.Transfers.Tracks.{essence, Tracks, change_first-Tracks, change_rows-Tracks}
use aris_cloud.Transfers.Actions.Dispatch.{
  to_transit, to_transit_from, put_back, dispatch_epc, dispatch_sku, dispatch_line, dispatch_lines,
  cancel_epc, cancel_line, cancel_lines, cancel_stock,
}
use aris_cloud.Transfers.Actions.Receive.{
  arrive, receive_epc, receive_units, check_receive_line, receive_line, receive_each,
}
use aris_cloud.Transfers.Actions.Shortages.{
  lose_units, resolve_units, check_resolution_line, resolve_each,
}

-- A move of a unit keeps its essence.
abbrev pub Moving : (StockItem → StockItem) → Type 0
Moving f = (x : StockItem) → essence (f x) ≡ essence x

-- Q bears the moves of the tenant's units.
abbrev pub BearsMoves {κ} : ℕ → (Tracked → Type κ) → Type κ
BearsMoves tenant Q =
    (f : StockItem → StockItem) (r : Tracked)
    → Moving f
    → r.stored.tenant_id ≡ tenant
    → Q r
    → Q (write f r)

-- Q bears the deletion of the tenant's units.
abbrev pub BearsDeletion {κ} : ℕ → (Tracked → Type κ) → Type κ
BearsDeletion tenant Q = (r : Tracked) → r.stored.tenant_id ≡ tenant → Q r → Q (delete r)

-- The filters select the tenant's units only.
abbrev pub IsOfTenant : ℕ → (StockItem → Bool) → Type 0
IsOfTenant tenant p = (x : StockItem) → p x ≡ true → x.tenant_id ≡ tenant

pub in_transit_sku-IsOfTenant :
    (tenant : ℕ) (at_store : Option ℕ → Bool) (s : TransferLineSnapshot)
    → IsOfTenant tenant (in_transit_sku tenant at_store s)
unfolding in_transit_sku
in_transit_sku-IsOfTenant tenant at_store s x h = ground arith

pub in_transit_epc-IsOfTenant :
    (tenant : ℕ) (at_store : Option ℕ → Bool) (epc : Option Text)
    → IsOfTenant tenant (in_transit_epc tenant at_store epc)
unfolding in_transit_epc
in_transit_epc-IsOfTenant tenant at_store epc x h = ground arith

pub sku_filters-IsOfTenant :
    (tenant origin : ℕ) (l p : Option Text) (s : TransferLineSnapshot)
    → IsOfTenant tenant (sku_filters tenant origin l p s)
unfolding sku_filters transfer_sku_filters
sku_filters-IsOfTenant tenant origin l p s x h = ground arith

pub epc_row-IsOfTenant : (tenant : ℕ) (epc : Option Text) → IsOfTenant tenant (epc_row tenant epc)
epc_row-IsOfTenant tenant epc x h = ground arith

module _ {κ} (base : List StockItem) (tenant : ℕ) (Q : Tracked → Type κ)
    (moves : BearsMoves tenant Q) where
  abbrev T : List Tracked → Type κ
  T = Tracks base Q

  pub write_first :
      (f : StockItem → StockItem) (p : StockItem → Bool)
      → Moving f
      → IsOfTenant tenant p
      → (n : ℕ) (rows : List Tracked) → T rows
      → T (change_first (write f) p n rows)
  write_first f p mv of n rows h =
      change_first-Tracks base Q (write f) p (λ _. refl) (λ r e. moves f r mv (of r.stored e)) n
        rows h

  pub write_rows :
      (f : StockItem → StockItem) (p : StockItem → Bool)
      → Moving f
      → IsOfTenant tenant p
      → (e : AppError) (n : ℕ) (rows : List Tracked) → T rows
      → Ensures T (change_rows (write f) e p n rows)
  write_rows f p mv of e n rows h =
      change_rows-Tracks base Q (write f) p (λ _. refl) (λ r eq. moves f r mv (of r.stored eq)) e n
        rows h

  pub validate_epc-Tracks :
      (origin : ℕ) (epc l pl : Option Text) (rows : List Tracked)
      → T rows
      → Ensures (λ found. T found.1) (validate_transferable_epc_stock tenant origin epc l pl rows)
  unfolding validate_transferable_epc_stock
  validate_epc-Tracks origin epc l pl rows h =
      let P = λ (found : StockItem × List Tracked). T found.1 in
      Ensures-bind P (or_raise (first (matching (epc_row tenant epc) rows)) validation_error) _
        λ r _. Ensures-bind P (check_epc_row origin l pl (settle origin r.live)) _ λ _ _.
          write_first (settle origin) (epc_row tenant epc) (λ _. refl)
            (epc_row-IsOfTenant tenant epc) 1 rows h

  revalidate_line-Tracks :
      (origin transfer : ℕ) (db : TransferDb) (line : TransferLine) (rows : List Tracked)
      → T rows
      → Ensures T (revalidate_draft_line tenant origin transfer db line rows)
  unfolding revalidate_draft_line revalidate_epc_line revalidate_sku_line
  revalidate_line-Tracks origin transfer db line rows h =
      let s = line.snapshot in
      Ensures-if T (is_epc line.line_type) _ _
        (λ _. Ensures-raise_if T (not (truthy s.epc)) validation_error _ λ _.
          Ensures-bind T (assert_draft_line_not_stale tenant origin s.epc rows) _ λ _ _.
            Ensures-bind T
              (validate_transferable_epc_stock tenant origin s.epc s.location_code s.pool rows) _
              λ found e.
                Ensures-raise_if T
                  (get_transfer_conflict_for_epc tenant s.epc origin (some transfer) db)
                  business_conflict _
                  λ _.
                    Ensures-ok (λ o. T o.1) _
                      (validate_epc-Tracks origin s.epc s.location_code s.pool rows h) e)
        (λ _.
          Ensures-bind T
            (validate_transferable_sku_stock tenant origin line.qty s.location_code s.pool s rows) _
            λ _ _. h)

  pub revalidate-Tracks :
      (origin transfer : ℕ) (db : TransferDb) (lines : List TransferLine) (rows : List Tracked)
      → T rows
      → Ensures T (revalidate_existing_draft_lines tenant origin transfer db lines rows)
  unfolding revalidate_existing_draft_lines
  revalidate-Tracks origin transfer db [] rows h = h
  revalidate-Tracks origin transfer db (line ∷ lines) rows h =
      Ensures-bind T (revalidate_draft_line tenant origin transfer db line rows) _ λ after e.
        revalidate-Tracks origin transfer db lines after
          (Ensures-ok T _ (revalidate_line-Tracks origin transfer db line rows h) e)
