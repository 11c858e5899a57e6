-- ===== src/Cash/Rollup.antt =====
-- The reconciliation of a day against its sessions.
use aris_cloud.Prelude.{
  ℕ, ◌≡◌, ◌∙◌, refl, sym, Bool, Option, none, some, List, [], ◌∷◌, All, ◌&&◌, ◌==◌, ap, arith,
  select, if◌then◌else◌, Bool-cases, ==_iff, inl, inr,
}
use aris_cloud.Prelude.Int.{ℤ, pos, ◌+ℤ◌, ◌≤ℤ◌, zero-+ℤ, +ℤ_assoc, +ℤ_left_comm}
use aris_cloud.Prelude.Result.{ok}
use aris_cloud.Prelude.Text.{Text}
use aris_cloud.Cash.Db.{CashSession, CashMovement, CashDayClose, CashDb, Caller}
use aris_cloud.Cash.Exact.{
  effects, amounts_of, exact_sum, IsWhole, float_limit, IsExactOnWhole, rollup_rows-expected,
}
use aris_cloud.Cash.DayClose.{
  Sums, in_unit, cash_difference, day_close_row, is_on_day, reconciliation_rollup, DayClosePayload,
  close_day,
}
use aris_cloud.Cash.Rows.{find, UniqueIds}
use aris_cloud.Cash.Ledger.{
  effect, balance, IsOfDay, IsAttachedTo, IsAttached, IsBalanced, IsLedger,
}

abbrev pub is_session_of : ℕ → ℕ → ℕ → CashSession → Bool
is_session_of t s d row = row.tenant_id == t && row.store_id == s && row.business_date == d

-- The expected cash of the day's sessions, added up.
abbrev pub sessions_total : ℕ → ℕ → ℕ → List CashSession → ℤ
sessions_total t s d [] = pos 0
sessions_total t s d (row ∷ rows) =
    let rest = sessions_total t s d rows in
    if is_session_of t s d row then row.expected_cash +ℤ rest else rest

module _ (t s d : ℕ) where
  -- The balances of the day's sessions, added up.
  abbrev balances : List CashSession → List CashMovement → ℤ
  balances [] ms = pos 0
  balances (row ∷ rows) ms =
      let rest = balances rows ms in
      if is_session_of t s d row then balance row.id ms +ℤ rest else rest

  sessions_total-eq-balances :
      (rows : List CashSession) (ms : List CashMovement)
      → All (IsBalanced ms) rows
      → sessions_total t s d rows ≡ balances rows ms
  sessions_total-eq-balances [] ms h = refl
  sessions_total-eq-balances (row ∷ rows) ms h =
      ground (arith, sessions_total-eq-balances rows ms h.1)

  balances_nil : (rows : List CashSession) → balances rows [] ≡ pos 0
  unfolding balance
  balances_nil [] = refl
  balances_nil (row ∷ rows) = ground (arith, zero-+ℤ (balances rows []), balances_nil rows)

  balances_other :
      (rows : List CashSession) (m : CashMovement) (ms : List CashMovement) (k : ℕ)
      → m.cash_session_id ≡ some k
      → find k rows ≡ none
      → balances rows (m ∷ ms) ≡ balances rows ms
  unfolding balance find
  balances_other [] m ms k e h = refl
  balances_other (row ∷ rows) m ms k e h = ground (arith, balances_other rows m ms k e)

  balances-none :
      (rows : List CashSession) (m : CashMovement) (ms : List CashMovement)
      → m.cash_session_id ≡ none
      → balances rows (m ∷ ms) ≡ balances rows ms
  unfolding balance
  balances-none [] m ms e = refl
  balances-none (row ∷ rows) m ms e = ground (arith, balances-none rows m ms e)

  abbrev on_day : CashMovement → ℤ → ℤ
  on_day m x = if is_on_day t s d m then x else pos 0

  balances_own :
      (rows : List CashSession) (m : CashMovement) (ms : List CashMovement) (k : ℕ)
      → m.cash_session_id ≡ some k
      → UniqueIds rows
      → IsOfDay (find k rows) m
      → balances rows (m ∷ ms) ≡ on_day m (effect m) +ℤ balances rows ms
  unfolding balance find
  balances_own [] m ms k e u h = absurd h
  balances_own (row ∷ rows) m ms k e u h = elim (Bool-cases (row.id == k)) [
    | inl same ↦
        let new : find k rows ≡ none = rw (← (==_iff row.id k).0 same) u.0 in
        ground (
          arith,
          balances_other rows m ms k e new,
          +ℤ_assoc (effect m) (balance row.id ms) (balances rows ms),
          zero-+ℤ (balances rows ms),
        )
    | inr other ↦
        let later : IsOfDay (find k rows) m = rw other at h in
        ground (
          arith,
          balances_own rows m ms k e u.1 later,
          +ℤ_left_comm (balance row.id ms) (on_day m (effect m)) (balances rows ms),
        )
  ]

  balances_cons :
      (rows : List CashSession) (m : CashMovement) (ms : List CashMovement) (k : Option ℕ)
      → m.cash_session_id ≡ k
      → UniqueIds rows
      → IsAttachedTo k rows m
      → balances rows (m ∷ ms) ≡ on_day m (effect m) +ℤ balances rows ms
  balances_cons rows m ms none e u h =
      ground (arith, balances-none rows m ms e, zero-+ℤ (balances rows ms))
  balances_cons rows m ms (some k) e u h = balances_own rows m ms k e u h

  balances-eq-effects :
      (rows : List CashSession) (ms : List CashMovement)
      → UniqueIds rows
      → All (IsAttached rows) ms
      → balances rows ms ≡ effects (select (is_on_day t s d) ms)
  balances-eq-effects rows [] u h = balances_nil rows
  balances-eq-effects rows (m ∷ ms) u h = ground (
    arith,
    balances_cons rows m ms m.cash_session_id refl u h.0,
    balances-eq-effects rows ms u h.1,
    zero-+ℤ (balances rows ms),
  )

  -- The amounts of the day's movements.
  abbrev pub day_amounts : CashDb → List ℤ
  day_amounts db = amounts_of (select (is_on_day t s d) db.movements)

  -- On tables that satisfy the invariant, on a day whose movements all have whole amounts, which add up
  -- to 2 ^ 53 at most: where the database adds whole floats exactly, the expected cash that the
  -- reconciliation of the day reads off the movements is the sum of the expected cash that the day's
  -- sessions carry.
  pub reconciliation_rollup-eq-sessions_total :
      (sums : Sums) (db : CashDb)
      → IsExactOnWhole sums
      → IsLedger db
      → All IsWhole (day_amounts db)
      → exact_sum (day_amounts db) ≤ℤ float_limit
      → (reconciliation_rollup sums db t s d).expected_cash
        ≡ in_unit sums.cent (sessions_total t s d db.sessions)
  unfolding reconciliation_rollup
  reconciliation_rollup-eq-sessions_total sums db exact l whole small =
      rollup_rows-expected sums (select (is_on_day t s d) db.movements) exact whole small
      ∙ ap (in_unit sums.cent) (
          sym (balances-eq-effects db.sessions db.movements l.unique l.attached)
          ∙ sym (sessions_total-eq-balances db.sessions db.movements l.balanced))

-- On tables that satisfy the invariant, on a day whose movements all have whole amounts, which add up to
-- 2 ^ 53 at most: where the database adds whole floats exactly, a close of the day that succeeds records
-- the sum of the expected cash of the day's sessions, and the counted cash less that sum.
pub close_day-records :
    (sums : Sums) (c : Caller) (role : Text) (p : DayClosePayload) (db db' : CashDb)
    → IsExactOnWhole sums
    → IsLedger db
    → All IsWhole (day_amounts c.tenant_id c.store_id p.business_date db)
    → exact_sum (day_amounts c.tenant_id c.store_id p.business_date db) ≤ℤ float_limit
    → close_day sums c role p db ≡ ok db'
    → let total =
        in_unit sums.cent (sessions_total c.tenant_id c.store_id p.business_date db.sessions) in
      (row : CashDayClose) × (db'.day_closes ≡ row ∷ db.day_closes)
      × (row.expected_cash ≡ total)
      × (row.difference_amount ≡ cash_difference sums p.counted_cash total)
unfolding close_day
close_day-records sums c role p db db' exact l whole small h =
    let expected =
      reconciliation_rollup-eq-sessions_total c.tenant_id c.store_id p.business_date sums db exact l
        whole small in
    let rollup = reconciliation_rollup sums db c.tenant_id c.store_id p.business_date in
    (
      day_close_row sums c p rollup,
      ground arith,
      expected,
      ap (cash_difference sums p.counted_cash) expected,
    )
