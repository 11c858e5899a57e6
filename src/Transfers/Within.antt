-- ===== src/Transfers/Within.antt =====
-- The quantities of a transfer's lines under the actions of app/aris3/routers/transfers.py, for
-- requests that name a line once: a line that is named twice is checked twice against the same totals.
use aris_cloud.Prelude.{
  Option-cases, inl, inr, ltb, ℕ, ◌+◌, ◌-◌, ◌≤◌, refl, ◌≡◌, ◌≢◌, List, [], ◌∷◌, map, arith, All,
}
use aris_cloud.Prelude.Result.{
  Ensures-bind, Ensures-map, Ensures-ok, Ensures-raise_if, validation_error, Ensures,
}
use aris_cloud.Transfers.{
  Text, Transfer, TransferLine, TransferMovement, shortage_reported, TransferReceiveLine,
  TransferShortageLine, ResolutionType,
}
use aris_cloud.Transfers.Stock.{Tracked}
use aris_cloud.Transfers.Totals.{
  LineTotals, MovementTotals, totals_of, outstanding, shortage_remaining,
}
use aris_cloud.Transfers.Sums.{moved}
use aris_cloud.Transfers.Actions.Receive.{
  find_transfer_line, receive_movement, receive_each, receive_line, check_receive_line,
}
use aris_cloud.Transfers.Actions.Shortages.{
  shortage_movement, report_each, resolve_each, resolved_by, check_shortage_line,
  check_resolution_line, resolve_units,
}

-- At most what was dispatched is received, at most that is reported short, and at most what was
-- reported is resolved.
pub record IsWithin (t : LineTotals) : Type 0 where
  pub received_most : t.received ≤ t.dispatched
  pub reported_most : t.reported ≤ t.dispatched
  pub resolved_most : t.found + t.lost ≤ t.reported

-- Each movement asks at most what f leaves for its line.
abbrev pub Fits : (ℕ → ℕ) → List TransferMovement → Type 0
Fits f = All (λ m. m.qty ≤ f m.transfer_line_id)

-- No two rows have one key.
abbrev pub IsDistinct {ℓ} : {A : Type ℓ} → (A → ℕ) → List A → Type 0
IsDistinct key [] = Unit
IsDistinct key (x ∷ xs) = All (λ o. key o ≢ key x) xs × IsDistinct key xs

pub All-map {ℓ ℓ' κ} :
    {A : Type ℓ} {B : Type ℓ'} (P : B → Type κ) (f : A → B) (xs : List A)
    → All (λ x. P (f x)) xs
    → All P (map f xs)
All-map P f [] h = tt
All-map P f (x ∷ xs) h = (h.0, All-map P f xs h.1)

pub IsDistinct-map {ℓ} :
    {A : Type ℓ} (key : TransferMovement → ℕ) (f : A → TransferMovement) (xs : List A)
    → IsDistinct (λ x. key (f x)) xs
    → IsDistinct key (map f xs)
IsDistinct-map key f [] h = tt
IsDistinct-map key f (x ∷ xs) h =
    (All-map (λ o. key o ≢ key (f x)) f xs h.0, IsDistinct-map key f xs h.1)

abbrev pub line_of : TransferMovement → ℕ
line_of m = m.transfer_line_id

moved_absent :
    (l : ℕ) (ms : List TransferMovement) → All (λ o. o.transfer_line_id ≢ l) ms → moved l ms ≡ 0
unfolding moved
moved_absent l [] h = refl
moved_absent l (m ∷ ms) h = ground (arith, moved_absent l ms h.1)

pub moved-Fits :
    (f : ℕ → ℕ) (l : ℕ) (ms : List TransferMovement)
    → IsDistinct line_of ms
    → Fits f ms
    → moved l ms ≤ f l
unfolding moved
moved-Fits f l [] d h = ground arith
moved-Fits f l (m ∷ ms) d h =
    ground (arith, moved-Fits f l ms d.1 h.1, moved_absent m.transfer_line_id ms d.0)

receive_line-fits :
    (id_text : ℕ → Text) (tenant : ℕ) (t : Transfer) (lines : List TransferLine)
    (totals : MovementTotals) (r : TransferReceiveLine) (rows : List Tracked)
    → Ensures
        (λ _. r.qty ≤ outstanding (totals_of r.line_id totals))
        (receive_line id_text tenant t lines totals r rows)
unfolding receive_line check_receive_line
receive_line-fits id_text tenant t lines totals r rows =
    elim (Option-cases (find_transfer_line r.line_id lines)) [
      | inl e ↦ ground (arith, e)
      | inr (line, e) ↦ ground (arith, e)
    ]

-- The loops over the lines of a request let only quantities through that fit.
pub receive_each-Fits :
    (id_text : ℕ → Text) (tenant : ℕ) (t : Transfer) (lines : List TransferLine)
    (totals : MovementTotals) (rs : List TransferReceiveLine) (rows : List Tracked)
    → Ensures
        (λ _. Fits (λ l. outstanding (totals_of l totals)) (map (receive_movement tenant t.id) rs))
        (receive_each id_text tenant t lines totals rs rows)
unfolding receive_each receive_line check_receive_line
receive_each-Fits id_text tenant t lines totals [] rows = tt
receive_each-Fits id_text tenant t lines totals (r ∷ rs) rows =
    let P = λ (_ : List Tracked).
      Fits (λ l. outstanding (totals_of l totals)) (map (receive_movement tenant t.id) (r ∷ rs)) in
    Ensures-bind P (receive_line id_text tenant t lines totals r rows) _ λ after e.
      Ensures-map _ P (receive_each id_text tenant t lines totals rs after)
        (λ _ rest.
          (Ensures-ok _ _ (receive_line-fits id_text tenant t lines totals r rows) e, rest))
        (receive_each-Fits id_text tenant t lines totals rs after)

pub report_each-Fits :
    (tenant transfer : ℕ) (lines : List TransferLine) (totals : MovementTotals)
    (ss : List TransferShortageLine)
    → Ensures
        (λ _.
          Fits
            (λ l. outstanding (totals_of l totals) - (totals_of l totals).reported)
            (map (shortage_movement tenant transfer shortage_reported) ss))
        (report_each lines totals ss)
unfolding report_each
report_each-Fits tenant transfer lines totals [] = tt
report_each-Fits tenant transfer lines totals (s ∷ ss) =
    let P = λ (_ : Unit {0}).
      Fits (λ l. outstanding (totals_of l totals) - (totals_of l totals).reported)
        (map (shortage_movement tenant transfer shortage_reported) (s ∷ ss)) in
    Ensures-bind P (check_shortage_line lines s) _ λ _ _.
      Ensures-raise_if P
        (ltb (outstanding (totals_of s.line_id totals))
          (s.qty + (totals_of s.line_id totals).reported))
        validation_error _
        λ fits.
          Ensures-map _ P (report_each lines totals ss) (λ _ rest. (ground arith, rest))
            (report_each-Fits tenant transfer lines totals ss)

check_resolution_line-fits :
    (lines : List TransferLine) (totals : MovementTotals) (s : TransferShortageLine)
    → Ensures
        (λ _. s.qty ≤ shortage_remaining (totals_of s.line_id totals))
        (check_resolution_line lines totals s)
unfolding check_resolution_line
check_resolution_line-fits lines totals s =
    let P = λ (_ : TransferLine). s.qty ≤ shortage_remaining (totals_of s.line_id totals) in
    Ensures-bind P (check_shortage_line lines s) _ λ line _. ground arith

pub resolve_each-Fits :
    (tenant : ℕ) (k : ResolutionType) (t : Transfer) (lines : List TransferLine)
    (totals : MovementTotals) (ss : List TransferShortageLine) (rows : List Tracked)
    → Ensures
        (λ _.
          Fits
            (λ l. shortage_remaining (totals_of l totals))
            (map (shortage_movement tenant t.id (resolved_by k)) ss))
        (resolve_each tenant k t lines totals ss rows)
unfolding resolve_each check_resolution_line
resolve_each-Fits tenant k t lines totals [] rows = tt
resolve_each-Fits tenant k t lines totals (s ∷ ss) rows =
    let P = λ (_ : List Tracked).
      Fits (λ l. shortage_remaining (totals_of l totals))
        (map (shortage_movement tenant t.id (resolved_by k)) (s ∷ ss)) in
    Ensures-bind P (check_resolution_line lines totals s) _ λ line e.
      Ensures-bind P (resolve_units tenant k t line s rows) _ λ after _.
        Ensures-map _ P (resolve_each tenant k t lines totals ss after)
          (λ _ rest. (Ensures-ok _ _ (check_resolution_line-fits lines totals s) e, rest))
          (resolve_each-Fits tenant k t lines totals ss after)
