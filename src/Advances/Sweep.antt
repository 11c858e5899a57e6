-- ===== src/Advances/Sweep.antt =====
-- What a sweep leaves behind, and what a refund pays.
use aris_cloud.Prelude.{
  ℕ, inr, inl, refl, ◌≡◌, Bool, true, false, ◌&&◌, List, [], ◌∷◌, arith, any, select, map, some,
  ◌==◌, Option-cases,
}
use aris_cloud.Prelude.Int.{◌-ℤ◌}
use aris_cloud.Prelude.Result.{ok}
use aris_cloud.Scope.{TokenData, Store}
use aris_cloud.Cash.Db.{Caller, CashMovement, MovementType}
use aris_cloud.Cash.Flow.{active_session, flow_movement, record_cash_movement, refund_voucher_cash}
use aris_cloud.Advances.{
  EventAction, advance_event, PosAdvance, is_due, expire_advance_if_needed, sweep_expired_advances,
  find_advance,
}
use aris_cloud.Advances.Handlers.{AdvanceDb, refund, caller_at, act_on_advance, mutate_advance}

abbrev pub is_overdue_in : ℕ → ℕ → ℕ → PosAdvance → Bool
is_overdue_in t s now row = row.tenant_id == t && row.store_id == s && is_due now row

-- After a sweep the store has no active advance that is past its date; the events that it writes are
-- one for each row that was such, in their order, with the row's id, the action EXPIRED and the time of
-- the sweep; and an advance that was not such is as it was.
pub sweep_expired_advances-leaves_none :
    (t s now id : ℕ) (rows : List PosAdvance)
    → (any (is_overdue_in t s now) (sweep_expired_advances t s now rows).0 ≡ false)
      × ((sweep_expired_advances t s now rows).1
          ≡ map
              (λ row. advance_event row EventAction.expired now)
              (select (is_overdue_in t s now) rows))
      × ((row : PosAdvance)
          → find_advance id rows ≡ some row
          → is_overdue_in t s now row ≡ false
          → find_advance id (sweep_expired_advances t s now rows).0 ≡ some row)
unfolding find_advance sweep_expired_advances expire_advance_if_needed
sweep_expired_advances-leaves_none t s now id [] = (refl, refl, λ row h _. h)
sweep_expired_advances-leaves_none t s now id (x ∷ rows) =
    let rest = sweep_expired_advances-leaves_none t s now id rows in
    (ground (arith, rest.0), ground (arith, rest.1), λ row h fresh. ground (arith, rest.2 row))

-- A refund in cash that succeeds takes the issued amount out of a drawer of the advance's tenant and
-- store, as one movement.
pub mutate_advance-refund_pays :
    (token : TokenData) (stores : List Store) (c : Caller) (today id : ℕ) (db db' : AdvanceDb)
    {row : PosAdvance}
    → find_advance id db.advances ≡ some row
    → mutate_advance token stores c today id (refund (some true)) db ≡ ok db'
    → (m : CashMovement) × (db'.cash.movements ≡ m ∷ db.cash.movements)
      × (m.action ≡ MovementType.cash_out)
      × (m.amount ≡ row.issued_amount)
      × (m.tenant_id ≡ row.tenant_id)
      × (m.store_id ≡ row.store_id)
unfolding mutate_advance act_on_advance refund_voucher_cash record_cash_movement
    expire_advance_if_needed
mutate_advance-refund_pays token stores c today id db db' {row} found e =
    elim (Option-cases (active_session (caller_at c row) db.cash)) [
      | inl missing ↦ absurd (ground arith)
      | inr (s, at_till) ↦ (
        flow_movement (caller_at c row) s row.id MovementType.cash_out row.issued_amount
            (s.expected_cash -ℤ row.issued_amount),
        ground arith,
        refl,
        refl,
        refl,
        refl,
      )
    ]
