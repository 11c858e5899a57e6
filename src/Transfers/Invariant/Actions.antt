-- ===== src/Transfers/Invariant/Actions.antt =====
-- The actions of app/aris3/routers/transfers.py keep the quantities of each line within bounds.
use aris_cloud.Prelude.{
  ℕ, ◌-◌, ◌≤◌, ◌∙◌, ap, inr, inl, sym, Bool-cases, refl, List, [], ◌∷◌, ◌++◌, map, arith, All,
  Option, some, ◌==◌, ==_iff,
}
use aris_cloud.Prelude.Result.{Ensures, Ensures-ok}
use aris_cloud.Prelude.{
  ℕ, ◌-◌, ◌≤◌, ◌∙◌, ap, inr, inl, sym, Bool-cases, refl, List, [], ◌∷◌, ◌++◌, map, arith, All,
  Option, some, ◌==◌, ==_iff,
}
use aris_cloud.Prelude.Result.{Ensures, Ensures-ok}
use mathlib.Core.Path.{subst}
use aris_cloud.Transfers.{
  Transfer, TransferLine, TransferMovement, MovementAction, dispatch, receive, shortage_reported,
  TransferReceiveLine, TransferShortageLine, ResolutionType, found_and_resend, lost_in_route,
  TransferShortageResolution, TransferDb, Caller, TransferAction, dispatch_action, receive_action,
  report_shortages_action, resolve_shortages_action, cancel_action, other_action, get_lines,
}
use aris_cloud.Transfers.Stock.{begin}
use aris_cloud.Transfers.Rules.{dispatch_rule, cancel_rule, receive_rule, report_rule, resolve_rule}
use aris_cloud.Transfers.Totals.{
  LineTotals, MovementTotals, bump, totals_of, get_movement_totals, outstanding, shortage_remaining,
}
use aris_cloud.Transfers.Sums.{moved, IsOf, totals_of-moved, totals_of-others}
use aris_cloud.Transfers.Within.{
  IsWithin, IsDistinct, IsDistinct-map, line_of, moved-Fits, receive_each-Fits, report_each-Fits,
  resolve_each-Fits,
}
use aris_cloud.Transfers.Actions.{act_on_transfer}
use aris_cloud.Transfers.Actions.Dispatch.{dispatch_movement, dispatch_transfer, cancel_transfer}
use aris_cloud.Transfers.Actions.Receive.{receive_movement, receive_transfer}
use aris_cloud.Transfers.Actions.Shortages.{
  shortage_movement, resolved_by, report_shortages, resolve_shortages,
}

abbrev pub AreWithin : List TransferMovement → Type 0
AreWithin ms = (transfer line : ℕ) → IsWithin (totals_of line (get_movement_totals transfer ms))

-- New movements of one transfer and one action matter at its lines alone.
AreWithin-added :
    (transfer : ℕ) (a : MovementAction) (new ms : List TransferMovement)
    → All (IsOf transfer a) new
    → AreWithin ms
    → ((l : ℕ) → IsWithin (bump a (moved l new) (totals_of l (get_movement_totals transfer ms))))
    → AreWithin (new ++ ms)
AreWithin-added transfer a new ms of within step other l =
    let after = totals_of-moved transfer l a new ms of in
    elim (Bool-cases (transfer == other)) [
      | inl e ↦
          subst IsWithin
            (sym after
              ∙ ap (λ x. totals_of l (get_movement_totals x (new ++ ms)))
                  ((==_iff transfer other).0 e))
            (step l)
      | inr ne ↦
          subst IsWithin
            (ap (totals_of l) (sym (totals_of-others transfer other a new ms of (ground arith))))
            (within other l)
    ]

module _ (t : LineTotals) (q : ℕ) (w : IsWithin t) where
  dispatch-IsWithin : IsWithin (bump dispatch q t)
  unfolding bump
  dispatch-IsWithin = record {
    received_most = omega (arith, w.received_most);
    reported_most = omega (arith, w.reported_most);
    resolved_most = w.resolved_most;
  }

  receive-IsWithin : q ≤ outstanding t → IsWithin (bump receive q t)
  unfolding bump
  receive-IsWithin h = record {
    received_most = omega (arith, w.received_most, h);
    reported_most = w.reported_most;
    resolved_most = w.resolved_most;
  }

  report-IsWithin : q ≤ outstanding t - t.reported → IsWithin (bump shortage_reported q t)
  unfolding bump
  report-IsWithin h = record {
    received_most = w.received_most;
    reported_most = omega (arith, w.reported_most, h);
    resolved_most = omega (arith, w.resolved_most, h);
  }

  resolve-IsWithin :
      (k : ResolutionType) → q ≤ shortage_remaining t → IsWithin (bump (resolved_by k) q t)
  unfolding bump resolved_by
  resolve-IsWithin found_and_resend h = record {
    received_most = w.received_most;
    reported_most = w.reported_most;
    resolved_most = omega (arith, w.resolved_most, h);
  }
  resolve-IsWithin lost_in_route h = record {
    received_most = w.received_most;
    reported_most = w.reported_most;
    resolved_most = omega (arith, w.resolved_most, h);
  }

dispatches-IsOf :
    (tenant transfer : ℕ) (lines : List TransferLine)
    → All (IsOf transfer dispatch) (map (dispatch_movement tenant transfer) lines)
unfolding dispatch_movement
dispatches-IsOf tenant transfer [] = tt
dispatches-IsOf tenant transfer (l ∷ ls) = ((refl, refl), dispatches-IsOf tenant transfer ls)

pub receives-IsOf :
    (tenant transfer : ℕ) (rs : List TransferReceiveLine)
    → All (IsOf transfer receive) (map (receive_movement tenant transfer) rs)
receives-IsOf tenant transfer [] = tt
receives-IsOf tenant transfer (r ∷ rs) = ((refl, refl), receives-IsOf tenant transfer rs)

pub shortages-IsOf :
    (tenant transfer : ℕ) (a : MovementAction) (ss : List TransferShortageLine)
    → All (IsOf transfer a) (map (shortage_movement tenant transfer a) ss)
shortages-IsOf tenant transfer a [] = tt
shortages-IsOf tenant transfer a (s ∷ ss) = ((refl, refl), shortages-IsOf tenant transfer a ss)

-- A request names each line once.
abbrev pub NamesOnce : TransferAction → Type 0
NamesOnce (receive_action lines) = IsDistinct (λ r. r.line_id) lines
NamesOnce (report_shortages_action lines) = IsDistinct (λ s. s.line_id) lines
NamesOnce (resolve_shortages_action (some given)) = IsDistinct (λ s. s.line_id) given.lines
NamesOnce _ = Unit

module _ (c : Caller) (tenant : ℕ) (t : Transfer) (db : TransferDb)
    (within : AreWithin db.movements) where
  abbrev Stay : TransferDb → Type 0
  Stay db' = AreWithin db'.movements

  abbrev totals : MovementTotals
  totals = get_movement_totals t.id db.movements

  dispatch-stays : Ensures Stay (dispatch_transfer c tenant t db)
  dispatch-stays = dispatch_rule Stay c tenant t db λ _ _ checked rows _ _.
      AreWithin-added t.id dispatch _ db.movements
        (dispatches-IsOf tenant t.id (get_lines t.id db.lines)) within
        (λ l. dispatch-IsWithin (totals_of l totals) _ (within t.id l))

  cancel-stays : Ensures Stay (cancel_transfer c tenant t db)
  cancel-stays = cancel_rule Stay c tenant t db λ _ rows _. within

  receive-stays :
      (rs : List TransferReceiveLine)
      → IsDistinct (λ r. r.line_id) rs
      → Ensures Stay (receive_transfer c tenant rs t db)
  receive-stays rs once = receive_rule Stay c tenant t db rs λ _ _ rows e.
      let fits =
        Ensures-ok _ _
          (receive_each-Fits c.id_text tenant t (get_lines t.id db.lines) totals rs
            (begin db.stock))
          e in
      let distinct = IsDistinct-map line_of (receive_movement tenant t.id) rs once in
      AreWithin-added t.id receive _ db.movements (receives-IsOf tenant t.id rs) within (λ l.
        receive-IsWithin (totals_of l totals) _ (within t.id l)
          (moved-Fits (λ k. outstanding (totals_of k totals)) l _ distinct fits))

  report-stays :
      (ss : List TransferShortageLine)
      → IsDistinct (λ s. s.line_id) ss
      → Ensures Stay (report_shortages c tenant ss t db)
  report-stays ss once = report_rule Stay c tenant t db ss λ _ e.
      let fits =
        Ensures-ok _ _ (report_each-Fits tenant t.id (get_lines t.id db.lines) totals ss) e in
      let distinct =
        IsDistinct-map line_of (shortage_movement tenant t.id shortage_reported) ss once in
      AreWithin-added t.id shortage_reported _ db.movements
        (shortages-IsOf tenant t.id shortage_reported ss) within
        (λ l. report-IsWithin (totals_of l totals) _ (within t.id l) (
          moved-Fits (λ k. outstanding (totals_of k totals) - (totals_of k totals).reported) l _
            distinct fits))

  resolve-stays :
      (given : Option TransferShortageResolution)
      → NamesOnce (resolve_shortages_action given)
      → Ensures Stay (resolve_shortages c tenant given t db)
  resolve-stays given once = resolve_rule Stay c tenant t db given λ r is_given _ rows e.
      let k = r.resolution in
      let once_given : IsDistinct (λ s. s.line_id) r.lines =
        subst (λ g. NamesOnce (resolve_shortages_action g)) is_given once in
      let fits =
        Ensures-ok _ _
          (resolve_each-Fits tenant k t (get_lines t.id db.lines) totals r.lines (begin db.stock))
          e in
      let distinct =
        IsDistinct-map line_of (shortage_movement tenant t.id (resolved_by k)) r.lines once_given in
      AreWithin-added t.id (resolved_by k) _ db.movements
        (shortages-IsOf tenant t.id (resolved_by k) r.lines) within
        (λ l.
          resolve-IsWithin (totals_of l totals) _ (within t.id l) k
            (moved-Fits (λ j. shortage_remaining (totals_of j totals)) l _ distinct fits))

  pub act-stays :
      (a : TransferAction) → NamesOnce a → Ensures Stay (act_on_transfer c tenant a t db)
  unfolding act_on_transfer
  act-stays dispatch_action once = dispatch-stays
  act-stays (receive_action rs) once = receive-stays rs once
  act-stays (report_shortages_action ss) once = report-stays ss once
  act-stays (resolve_shortages_action given) once = resolve-stays given once
  act-stays cancel_action once = cancel-stays
  act-stays other_action once = tt
