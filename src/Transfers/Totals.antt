-- ===== src/Transfers/Totals.antt =====
-- The sums of a transfer's movements by line and action: `TransferRepository.get_movement_totals` of
-- app/aris3/repos/transfers.py, and what app/aris3/routers/transfers.py computes of them.
use aris_cloud.Prelude.{
  ℕ, ◌+◌, ◌-◌, Bool, true, false, ◌&&◌, ◌||◌, List, [], ◌∷◌, if◌then◌else◌, select, length, ◌==◌,
  ltb,
}
use aris_cloud.Transfers.{
  Transfer, TransferLine, TransferMovement, MovementAction, dispatch, receive, shortage_reported,
  shortage_resolved_found_and_resend, shortage_resolved_lost_in_route, is_in_transit,
}

-- The inner dictionary; an action without an entry counts as 0, as `get(action, 0)` has it.
pub record LineTotals : Type 0 where
  pub dispatched : ℕ
  pub received : ℕ
  pub reported : ℕ
  pub found : ℕ
  pub lost : ℕ

abbrev pub no_totals : LineTotals
no_totals = record { dispatched = 0; received = 0; reported = 0; found = 0; lost = 0 }

unfoldable pub bump : MovementAction → ℕ → LineTotals → LineTotals
bump dispatch q t = record t { dispatched = t.dispatched + q }
bump receive q t = record t { received = t.received + q }
bump shortage_reported q t = record t { reported = t.reported + q }
bump shortage_resolved_found_and_resend q t = record t { found = t.found + q }
bump shortage_resolved_lost_in_route q t = record t { lost = t.lost + q }

-- `movement_totals`, keyed by the line.
pub record Entry : Type 0 where
  pub line_id : ℕ
  pub totals : LineTotals

abbrev pub MovementTotals : Type 0
MovementTotals = List Entry

-- `movement_totals.get(line_id, {})`
unfoldable pub totals_of : ℕ → MovementTotals → LineTotals
totals_of line [] = no_totals
totals_of line (e ∷ es) = if e.line_id == line then e.totals else totals_of line es

-- A quantity added to an entry, which is made when there is none.
unfoldable pub add_to : MovementAction → ℕ → ℕ → MovementTotals → MovementTotals
unfolding bump
add_to action line q [] = record { line_id = line; totals = bump action q no_totals } ∷ []
add_to action line q (e ∷ es) =
    let rest = add_to action line q es in
    if e.line_id == line then record e { totals = bump action q e.totals } ∷ es else e ∷ rest

unfoldable pub get_movement_totals : ℕ → List TransferMovement → MovementTotals
unfolding add_to
get_movement_totals transfer [] = []
get_movement_totals transfer (m ∷ ms) =
    let rest = get_movement_totals transfer ms in
    if m.transfer_id == transfer then add_to m.action m.transfer_line_id m.qty rest else rest

-- `max(dispatched - received - lost, 0)`
abbrev pub outstanding : LineTotals → ℕ
outstanding t = t.dispatched - t.received - t.lost

unfoldable pub outstanding_total : MovementTotals → ℕ
outstanding_total [] = 0
outstanding_total (e ∷ es) = outstanding e.totals + outstanding_total es

-- `max(reported - resolved_found - resolved_lost, 0)`
abbrev pub shortage_remaining : LineTotals → ℕ
shortage_remaining t = t.reported - t.found - t.lost

pub data ShortageStatus : Type 0 where
  no_shortage reported resolved : ShortageStatus

pub data ResolutionStatus : Type 0 where
  unresolved partial mixed all_found all_lost : ResolutionStatus

pub record LineStatus : Type 0 where
  pub received_qty : ℕ
  pub outstanding_qty : ℕ
  pub shortage_status : ShortageStatus
  pub resolution_status : ResolutionStatus

unfoldable pub shortage_status_of : LineTotals → ShortageStatus
shortage_status_of t =
    if t.reported == 0
    then no_shortage
    else if ltb 0 (shortage_remaining t)
    then reported
    else resolved

unfoldable pub resolution_status_of : LineTotals → ResolutionStatus
resolution_status_of t =
    if ltb 0 t.found || ltb 0 t.lost
    then (if shortage_remaining t == 0 && ltb 0 t.reported
        then (if ltb 0 t.found && ltb 0 t.lost
            then mixed
            else if ltb 0 t.found
            then all_found
            else all_lost)
        else partial)
    else unresolved

unfoldable pub line_status_from_totals : TransferLine → LineTotals → LineStatus
unfolding shortage_status_of resolution_status_of
line_status_from_totals line t =
    let baseline_qty = if ltb 0 t.dispatched then t.dispatched else line.qty in
    record {
      received_qty = t.received;
      outstanding_qty = baseline_qty - t.received - t.lost;
      shortage_status = shortage_status_of t;
      resolution_status = resolution_status_of t;
    }

pub record MovementSummary : Type 0 where
  pub dispatched_lines : ℕ
  pub dispatched_qty : ℕ
  pub pending_reception : Bool
  pub shortages_possible : Bool

unfoldable pub is_dispatch : MovementAction → Bool
is_dispatch dispatch = true
is_dispatch _ = false

abbrev pub dispatches : ℕ → List TransferMovement → List TransferMovement
dispatches transfer = select (λ m. m.transfer_id == transfer && is_dispatch m.action)

unfoldable pub sum_qty : List TransferMovement → ℕ
sum_qty [] = 0
sum_qty (m ∷ ms) = m.qty + sum_qty ms

unfoldable pub count_dispatched : ℕ → List TransferMovement → ℕ × ℕ
unfolding is_dispatch sum_qty
count_dispatched transfer ms = (length (dispatches transfer ms), sum_qty (dispatches transfer ms))

unfoldable pub movement_summary :
    Transfer → List TransferMovement → MovementTotals → MovementSummary
unfolding count_dispatched outstanding_total is_in_transit
movement_summary transfer ms totals =
    let (dispatched_lines, dispatched_qty) = count_dispatched transfer.id ms in
    let pending = ltb 0 (outstanding_total totals) && is_in_transit transfer.status in
    record {
      dispatched_lines = dispatched_lines;
      dispatched_qty = dispatched_qty;
      pending_reception = pending;
      shortages_possible = pending;
    }
