-- ===== src/Transfers/Sums.antt =====
-- Lemmas on the sums of movements (Transfers.Totals): what is added to a line shows at that line, and
-- nothing is outstanding in total exactly when nothing is at any line.
use aris_cloud.Prelude.{
  ℕ, ◌+◌, ◌↔◌, sym, refl, ◌≡◌, ◌≢◌, List, [], ◌∷◌, ◌++◌, if◌then◌else◌, arith, All, ◌==◌,
}
use aris_cloud.Transfers.{
  TransferMovement, MovementAction, dispatch, receive, shortage_reported,
  shortage_resolved_found_and_resend, shortage_resolved_lost_in_route,
}
use aris_cloud.Transfers.Totals.{
  LineTotals, Entry, MovementTotals, bump, totals_of, add_to, get_movement_totals, outstanding,
  outstanding_total, no_totals,
}

-- What movements add to a line.
unfoldable pub moved : ℕ → List TransferMovement → ℕ
moved line [] = 0
moved line (m ∷ ms) =
    let rest = moved line ms in if m.transfer_line_id == line then m.qty + rest else rest

pub totals_of-add_to :
    (a : MovementAction) (k q l : ℕ) (t : MovementTotals)
    → totals_of l (add_to a k q t) ≡ (if k == l then bump a q (totals_of l t) else totals_of l t)
unfolding totals_of add_to
totals_of-add_to a k q l [] = ground arith
totals_of-add_to a k q l (e ∷ es) = ground (arith, totals_of-add_to a k q l es)

pub bump-bump :
    (a : MovementAction) (q r : ℕ) (t : LineTotals) → bump a q (bump a r t) ≡ bump a (q + r) t
unfolding bump
bump-bump dispatch q r t = ground arith
bump-bump receive q r t = ground arith
bump-bump shortage_reported q r t = ground arith
bump-bump shortage_resolved_found_and_resend q r t = ground arith
bump-bump shortage_resolved_lost_in_route q r t = ground arith

pub bump_zero : (a : MovementAction) (t : LineTotals) → bump a 0 t ≡ t
unfolding bump
bump_zero dispatch t = ground arith
bump_zero receive t = ground arith
bump_zero shortage_reported t = ground arith
bump_zero shortage_resolved_found_and_resend t = ground arith
bump_zero shortage_resolved_lost_in_route t = ground arith

-- Movements of one transfer and of one action.
abbrev pub IsOf : ℕ → MovementAction → TransferMovement → Type 0
IsOf transfer a m = (m.transfer_id ≡ transfer) × (m.action ≡ a)

pub totals_of-moved :
    (transfer l : ℕ) (a : MovementAction) (new ms : List TransferMovement)
    → All (IsOf transfer a) new
    → totals_of l (get_movement_totals transfer (new ++ ms))
      ≡ bump a (moved l new) (totals_of l (get_movement_totals transfer ms))
unfolding get_movement_totals moved
totals_of-moved transfer l a [] ms h = sym (bump_zero a _)
totals_of-moved transfer l a (m ∷ new) ms h =
    let t = get_movement_totals transfer ms in
    ground (
      arith,
      totals_of-moved transfer l a new ms h.1,
      totals_of-add_to a m.transfer_line_id m.qty l (get_movement_totals transfer (new ++ ms)),
      bump-bump a m.qty (moved l new) (totals_of l t),
    )

pub totals_of-others :
    (transfer other : ℕ) (a : MovementAction) (new ms : List TransferMovement)
    → All (IsOf transfer a) new
    → transfer ≢ other
    → get_movement_totals other (new ++ ms) ≡ get_movement_totals other ms
unfolding get_movement_totals
totals_of-others transfer other a [] ms h ne = refl
totals_of-others transfer other a (m ∷ new) ms h ne =
    ground (arith, totals_of-others transfer other a new ms h.1 ne)

-- Each line has one entry.
abbrev pub IsKeyed : MovementTotals → Type 0
IsKeyed [] = Unit
IsKeyed (e ∷ es) = All (λ o. o.line_id ≢ e.line_id) es × IsKeyed es

add_to-lines :
    (a : MovementAction) (k q j : ℕ) (t : MovementTotals)
    → j ≢ k
    → All (λ o. o.line_id ≢ j) t
    → All (λ o. o.line_id ≢ j) (add_to a k q t)
unfolding add_to
add_to-lines a k q j [] ne h = ground arith
add_to-lines a k q j (e ∷ es) ne h = ground (arith, add_to-lines a k q j es ne h.1)

pub add_to-IsKeyed :
    (a : MovementAction) (k q : ℕ) (t : MovementTotals) → IsKeyed t → IsKeyed (add_to a k q t)
unfolding add_to
add_to-IsKeyed a k q [] h = ground arith
add_to-IsKeyed a k q (e ∷ es) h =
    ground (arith, add_to-IsKeyed a k q es h.1, add_to-lines a k q e.line_id es)

pub get_movement_totals-IsKeyed :
    (transfer : ℕ) (ms : List TransferMovement) → IsKeyed (get_movement_totals transfer ms)
unfolding get_movement_totals
get_movement_totals-IsKeyed transfer [] = tt
get_movement_totals-IsKeyed transfer (m ∷ ms) = ground (
  arith,
  get_movement_totals-IsKeyed transfer ms,
  add_to-IsKeyed m.action m.transfer_line_id m.qty (get_movement_totals transfer ms),
)

nothing_at :
    (t : MovementTotals) (l : ℕ) → outstanding_total t ≡ 0 → outstanding (totals_of l t) ≡ 0
unfolding outstanding_total totals_of
nothing_at [] l h = refl
nothing_at (e ∷ es) l h = ground (arith, nothing_at es l)

totals_of-absent :
    (t : MovementTotals) (l : ℕ) → All (λ o. o.line_id ≢ l) t → totals_of l t ≡ no_totals
unfolding totals_of
totals_of-absent [] l h = refl
totals_of-absent (e ∷ es) l h = ground (arith, totals_of-absent es l h.1)

nothing_in_rest :
    (e : Entry) (es : MovementTotals)
    → IsKeyed (e ∷ es)
    → ((l : ℕ) → outstanding (totals_of l (e ∷ es)) ≡ 0)
    → (l : ℕ) → outstanding (totals_of l es) ≡ 0
unfolding totals_of
nothing_in_rest e es keyed h l = ground (arith, h l, totals_of-absent es e.line_id keyed.0)

nothing_in_total :
    (t : MovementTotals)
    → IsKeyed t
    → ((l : ℕ) → outstanding (totals_of l t) ≡ 0)
    → outstanding_total t ≡ 0
unfolding outstanding_total totals_of
nothing_in_total [] keyed h = refl
nothing_in_total (e ∷ es) keyed h =
    ground (arith, h e.line_id, nothing_in_total es keyed.1 (nothing_in_rest e es keyed h))

pub outstanding_total_zero_iff :
    (t : MovementTotals)
    → IsKeyed t
    → (outstanding_total t ≡ 0) ↔ ((l : ℕ) → outstanding (totals_of l t) ≡ 0)
outstanding_total_zero_iff t keyed = (λ h l. nothing_at t l h, nothing_in_total t keyed)
