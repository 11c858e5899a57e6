-- ===== src/Transfers/Conserved/Actions.antt =====
-- What each action of app/aris3/routers/transfers.py leaves of the stock, by what its rows keep.
use aris_cloud.Prelude.{ℕ, ◌∙◌, ap, sym, ◌≡◌, false, List, [], Option, none, some}
use aris_cloud.Prelude.Result.{Ensures, Ensures-map, Ensures-ok}
use aris_cloud.Prelude.{ℕ, ◌∙◌, ap, sym, ◌≡◌, false, List, [], Option, none, some}
use aris_cloud.Prelude.Result.{Ensures, Ensures-map, Ensures-ok}
use aris_cloud.Transfers.{
  StockItem, Transfer, TransferLineCreate, found_and_resend, TransferDb, get_lines, Caller,
  TransferAction, dispatch_action, receive_action, report_shortages_action,
  resolve_shortages_action, cancel_action, other_action,
}
use mathlib.Core.Path.{subst}
use aris_cloud.Transfers.{TransferShortageResolution}
use aris_cloud.Transfers.Stock.{Tracked, begin, commit}
use aris_cloud.Transfers.Totals.{get_movement_totals}
use aris_cloud.Transfers.Lines.{normalize_transfer_lines}
use aris_cloud.Transfers.Drafts.{update_lines}
use aris_cloud.Transfers.Tracks.{Tracks, begin-Tracks}
use aris_cloud.Transfers.Rules.{dispatch_rule, cancel_rule, receive_rule, report_rule, resolve_rule}
use aris_cloud.Transfers.Actions.{act_on_transfer}
use aris_cloud.Transfers.Actions.Dispatch.{dispatch_transfer, cancel_transfer}
use aris_cloud.Transfers.Actions.Receive.{receive_transfer}
use aris_cloud.Transfers.Actions.Shortages.{resolve_each, resolve_shortages, report_shortages}
use aris_cloud.Transfers.Kept.{BearsMoves, BearsDeletion, revalidate-Tracks}
use aris_cloud.Transfers.Kept.Dispatch.{dispatch_lines-Tracks, cancel_stock-Tracks}
use aris_cloud.Transfers.Kept.Receive.{receive_each-Tracks, resolve_each-Tracks}
use aris_cloud.Transfers.Kept.Drafts.{
  normalize_lines-Tracks, update_lines-Tracks, resolve_found-Tracks,
}

-- Whether an action writes stock off.
abbrev pub LosesNothing : TransferAction → Type 0
LosesNothing (resolve_shortages_action (some given)) = given.resolution ≡ found_and_resend
LosesNothing _ = Unit

-- What holds of the stock after a request, by what its rows keep.
module _ {κ} (tenant : ℕ) (db : TransferDb) (Q : Tracked → Type κ) (R : List StockItem → Type κ)
    (moves : BearsMoves tenant Q)
    (fresh : (x : StockItem) → Q (record { stored = x; live = x; deleted = false }))
    (result : (rows : List Tracked) → Tracks db.stock Q rows → R (commit rows))
    (same : R db.stock) where
  abbrev Then : TransferDb → Type κ
  Then db' = R db'.stock

  abbrev T : List Tracked → Type κ
  T = Tracks db.stock Q

  begun : T (begin db.stock)
  begun = begin-Tracks Q db.stock fresh

  module _ (c : Caller) (t : Transfer) where
    dispatch-Then : Ensures Then (dispatch_transfer c tenant t db)
    dispatch-Then = dispatch_rule Then c tenant t db λ _ _ checked rows e e'.
        let o = t.origin_store_id in
        let lines = get_lines t.id db.lines in
        let kept =
          Ensures-ok T _
            (revalidate-Tracks db.stock tenant Q moves o t.id db lines (begin db.stock) begun) e in
        result rows
          (Ensures-ok T _ (dispatch_lines-Tracks db.stock tenant Q moves o lines checked kept) e')

    cancel-Then : Ensures Then (cancel_transfer c tenant t db)
    cancel-Then = cancel_rule Then c tenant t db λ _ rows e.
        result rows (Ensures-ok T _ (cancel_stock-Tracks db.stock tenant Q moves t db begun) e)

    receive-Then : (rs : _) → Ensures Then (receive_transfer c tenant rs t db)
    receive-Then rs = receive_rule Then c tenant t db rs λ _ _ rows e. result rows (
        Ensures-ok T _
          (receive_each-Tracks db.stock tenant Q moves c.id_text t (get_lines t.id db.lines)
            (get_movement_totals t.id db.movements) rs (begin db.stock) begun)
          e)

    report-Then : (ss : _) → Ensures Then (report_shortages c tenant ss t db)
    report-Then ss = report_rule Then c tenant t db ss λ _ _. same

  pub created-Then :
      (origin : ℕ) (lines : List TransferLineCreate)
      → Ensures
          (λ done. R (commit done.1))
          (normalize_transfer_lines tenant origin none db [] lines (begin db.stock))
  created-Then origin lines =
      Ensures-map _ _ (normalize_transfer_lines tenant origin none db [] lines (begin db.stock))
        (λ done h. result done.1 h)
        (normalize_lines-Tracks db.stock tenant Q moves origin none db [] lines (begin db.stock)
          begun)

  pub updated-Then :
      (c : Caller) (transfer origin : ℕ) (lines : Option (List TransferLineCreate))
      → Ensures (λ done. R (commit done.1)) (update_lines c tenant transfer origin lines db)
  updated-Then c transfer origin lines =
      Ensures-map _ _ (update_lines c tenant transfer origin lines db) (λ done h. result done.1 h)
        (update_lines-Tracks db.stock tenant Q moves c transfer origin lines db begun)

  module _ (c : Caller) (t : Transfer) where
    found-Then :
        (given : Option TransferShortageResolution)
        → LosesNothing (resolve_shortages_action given)
        → Ensures Then (resolve_shortages c tenant given t db)
    found-Then given none_lost = resolve_rule Then c tenant t db given λ r e _ rows done.
        let lines = get_lines t.id db.lines in
        let totals = get_movement_totals t.id db.movements in
        let found : r.resolution ≡ found_and_resend =
          subst (λ g. LosesNothing (resolve_shortages_action g)) e none_lost in
        result rows (
          Ensures-ok T _
            (resolve_found-Tracks db.stock tenant Q moves t lines totals r.lines (begin db.stock)
              begun)
            (ap (λ k. resolve_each tenant k t lines totals r.lines (begin db.stock)) (sym found)
              ∙ done))

    pub act-Then_kept :
        (a : TransferAction) → LosesNothing a → Ensures Then (act_on_transfer c tenant a t db)
    unfolding act_on_transfer
    act-Then_kept dispatch_action h = dispatch-Then c t
    act-Then_kept (receive_action rs) h = receive-Then c t rs
    act-Then_kept (report_shortages_action ss) h = report-Then c t ss
    act-Then_kept (resolve_shortages_action given) h = found-Then given h
    act-Then_kept cancel_action h = cancel-Then c t
    act-Then_kept other_action h = tt

    module _ (deletion : BearsDeletion tenant Q) where
      resolve-Then :
          (given : Option TransferShortageResolution)
          → Ensures Then (resolve_shortages c tenant given t db)
      resolve-Then given = resolve_rule Then c tenant t db given λ r _ _ rows done. result rows (
          Ensures-ok T _
            (resolve_each-Tracks db.stock tenant Q deletion r.resolution t (get_lines t.id db.lines)
              (get_movement_totals t.id db.movements) r.lines (begin db.stock) begun)
            done)

      pub act-Then : (a : TransferAction) → Ensures Then (act_on_transfer c tenant a t db)
      unfolding act_on_transfer
      act-Then dispatch_action = dispatch-Then c t
      act-Then (receive_action rs) = receive-Then c t rs
      act-Then (report_shortages_action ss) = report-Then c t ss
      act-Then (resolve_shortages_action given) = resolve-Then given
      act-Then cancel_action = cancel-Then c t
      act-Then other_action = tt
