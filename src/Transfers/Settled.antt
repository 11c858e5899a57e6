-- ===== src/Transfers/Settled.antt =====
-- When a transfer is received: the totals that `transfer_actions` of app/aris3/routers/transfers.py
-- brings up to date by itself are those that `get_movement_totals` computes of the stored movements.
use aris_cloud.Prelude.{
  ℕ, ◌↔◌, ◌∙◌, ap, inr, inl, sym, Bool-cases, refl, ◌≡◌, true, List, [], ◌∷◌, map, arith, Option,
  ◌==◌, ==_iff,
}
use aris_cloud.Prelude.Result.{Ensures}
use aris_cloud.Transfers.{
  Transfer, TransferStatus, received, partial_received, TransferReceiveLine, TransferShortageLine,
  TransferShortageResolution, TransferMovement, MovementAction, receive, TransferDb, Caller,
  put_transfer, is_in_transit,
}
use aris_cloud.Transfers.Totals.{
  MovementTotals, bump, totals_of, add_to, get_movement_totals, outstanding, outstanding_total,
}
use aris_cloud.Transfers.Sums.{
  moved, totals_of-moved, totals_of-add_to, bump_zero, bump-bump, IsKeyed, add_to-IsKeyed,
  get_movement_totals-IsKeyed, outstanding_total_zero_iff,
}
use aris_cloud.Transfers.Invariant.Actions.{receives-IsOf, shortages-IsOf}
use aris_cloud.Transfers.Rules.{receive_rule, resolve_rule}
use aris_cloud.Transfers.Actions.Receive.{
  receive_movement, receive_transfer, add_received, settle_receive,
}
use aris_cloud.Transfers.Actions.Shortages.{
  shortage_movement, resolved_by, resolve_shortages, add_resolved, settle_resolve,
}

-- Nothing of the transfer is on its way, as the stored movements have it.
abbrev pub IsAllArrived : ℕ → List TransferMovement → Type 0
IsAllArrived transfer ms = (l : ℕ) → outstanding (totals_of l (get_movement_totals transfer ms)) ≡ 0

totals_of-add_received :
    (tenant transfer l : ℕ) (rs : List TransferReceiveLine) (t : MovementTotals)
    → totals_of l (add_received rs t)
      ≡ bump receive (moved l (map (receive_movement tenant transfer) rs)) (totals_of l t)
unfolding add_received moved
totals_of-add_received tenant transfer l [] t = sym (bump_zero receive _)
totals_of-add_received tenant transfer l (r ∷ rs) t =
    let later = moved l (map (receive_movement tenant transfer) rs) in
    ground (
      arith,
      totals_of-add_received tenant transfer l rs (add_to receive r.line_id r.qty t),
      totals_of-add_to receive r.line_id r.qty l t,
      bump-bump receive later r.qty (totals_of l t),
    )

add_received-IsKeyed :
    (rs : List TransferReceiveLine) (t : MovementTotals) → IsKeyed t → IsKeyed (add_received rs t)
unfolding add_received
add_received-IsKeyed [] t h = h
add_received-IsKeyed (r ∷ rs) t h =
    add_received-IsKeyed rs (add_to receive r.line_id r.qty t)
      (add_to-IsKeyed receive r.line_id r.qty t h)

totals_of-add_resolved :
    (tenant transfer l : ℕ) (a : MovementAction) (ss : List TransferShortageLine)
    (t : MovementTotals)
    → totals_of l (add_resolved a ss t)
      ≡ bump a (moved l (map (shortage_movement tenant transfer a) ss)) (totals_of l t)
unfolding add_resolved moved
totals_of-add_resolved tenant transfer l a [] t = sym (bump_zero a _)
totals_of-add_resolved tenant transfer l a (s ∷ ss) t =
    let later = moved l (map (shortage_movement tenant transfer a) ss) in
    ground (
      arith,
      totals_of-add_resolved tenant transfer l a ss (add_to a s.line_id s.qty t),
      totals_of-add_to a s.line_id s.qty l t,
      bump-bump a later s.qty (totals_of l t),
    )

add_resolved-IsKeyed :
    (a : MovementAction) (ss : List TransferShortageLine) (t : MovementTotals)
    → IsKeyed t
    → IsKeyed (add_resolved a ss t)
unfolding add_resolved
add_resolved-IsKeyed a [] t h = h
add_resolved-IsKeyed a (s ∷ ss) t h =
    add_resolved-IsKeyed a ss (add_to a s.line_id s.qty t) (add_to-IsKeyed a s.line_id s.qty t h)

-- Totals that agree with the stored ones at each line are outstanding in total when those are.
outstanding_iff_arriving :
    (transfer : ℕ) (ms : List TransferMovement) (t : MovementTotals)
    → IsKeyed t
    → ((l : ℕ) → totals_of l t ≡ totals_of l (get_movement_totals transfer ms))
    → (outstanding_total t ≡ 0) ↔ IsAllArrived transfer ms
outstanding_iff_arriving transfer ms t keyed same =
    let zero = outstanding_total_zero_iff t keyed in
    (
      λ h l. ap outstanding (sym (same l)) ∙ zero.0 h l,
      λ h. zero.1 (λ l. ap outstanding (same l) ∙ h l),
    )

-- The row that an action writes for the transfer, and its status.
pub record IsSettled (t : Transfer) (db db' : TransferDb) (otherwise : TransferStatus)
    : Type 0 where
  pub after : Transfer
  pub written : db'.transfers ≡ put_transfer after db.transfers
  pub same_id : after.id ≡ t.id
  pub complete : IsAllArrived t.id db'.movements → after.status ≡ received
  pub incomplete : ¬ IsAllArrived t.id db'.movements → after.status ≡ otherwise

module _ (now : ℕ) (t : Transfer) (db db' : TransferDb) (totals : MovementTotals) where
  settle_receive-IsSettled :
      (outstanding_total totals ≡ 0) ↔ IsAllArrived t.id db'.movements
      → db'.transfers ≡ put_transfer (settle_receive now totals t) db.transfers
      → IsSettled t db db' partial_received
  unfolding settle_receive
  settle_receive-IsSettled same w = record {
    after = settle_receive now totals t;
    written = w;
    same_id = ground arith;
    complete = λ h. ground (arith, same.1 h);
    incomplete = λ h. elim (Bool-cases (outstanding_total totals == 0)) [
      | inl e ↦ absurd (h (same.0 ((==_iff (outstanding_total totals) 0).0 e)))
      | inr e ↦ ground arith
    ];
  }

  settle_resolve-IsSettled :
      is_in_transit t.status ≡ true
      → (outstanding_total totals ≡ 0) ↔ IsAllArrived t.id db'.movements
      → db'.transfers ≡ put_transfer (settle_resolve now totals t) db.transfers
      → IsSettled t db db' t.status
  unfolding settle_resolve
  settle_resolve-IsSettled way same w = record {
    after = settle_resolve now totals t;
    written = w;
    same_id = ground arith;
    complete = λ h. ground (arith, same.1 h);
    incomplete = λ h. elim (Bool-cases (outstanding_total totals == 0)) [
      | inl e ↦ absurd (h (same.0 ((==_iff (outstanding_total totals) 0).0 e)))
      | inr e ↦ ground arith
    ];
  }

-- A reception that succeeds makes the transfer received exactly when, by all movements that are stored
-- then, nothing is outstanding at any line, and otherwise received in part.
pub receive_transfer-IsSettled :
    (c : Caller) (tenant : ℕ) (rs : List TransferReceiveLine) (t : Transfer) (db : TransferDb)
    → Ensures (λ db'. IsSettled t db db' partial_received) (receive_transfer c tenant rs t db)
receive_transfer-IsSettled c tenant rs t db =
    receive_rule (λ db'. IsSettled t db db' partial_received) c tenant t db rs
      λ _ _ rows _.
        let before = get_movement_totals t.id db.movements in
        settle_receive-IsSettled c.now t db _ (add_received rs before)
          (outstanding_iff_arriving t.id _ (add_received rs before)
            (add_received-IsKeyed rs before (get_movement_totals-IsKeyed t.id db.movements))
            (λ l.
              totals_of-add_received tenant t.id l rs before
              ∙ sym (totals_of-moved t.id l receive _ db.movements (receives-IsOf tenant t.id rs))))
          refl

-- A resolution of shortages that succeeds makes the transfer received exactly when, by all movements
-- that are stored then, nothing is outstanding at any line, and otherwise leaves its status.
pub resolve_shortages-IsSettled :
    (c : Caller) (tenant : ℕ) (given : Option TransferShortageResolution) (t : Transfer)
    (db : TransferDb)
    → Ensures (λ db'. IsSettled t db db' t.status) (resolve_shortages c tenant given t db)
resolve_shortages-IsSettled c tenant given t db =
    resolve_rule (λ db'. IsSettled t db db' t.status) c tenant t db given
      λ r _ way rows _.
        let before = get_movement_totals t.id db.movements in
        let a = resolved_by r.resolution in
        settle_resolve-IsSettled c.now t db _ (add_resolved a r.lines before) way
          (outstanding_iff_arriving t.id _ (add_resolved a r.lines before)
            (add_resolved-IsKeyed a r.lines before (get_movement_totals-IsKeyed t.id db.movements))
            (λ l.
              totals_of-add_resolved tenant t.id l a r.lines before
              ∙ sym
                  (totals_of-moved t.id l a _ db.movements (shortages-IsOf tenant t.id a r.lines))))
          refl
