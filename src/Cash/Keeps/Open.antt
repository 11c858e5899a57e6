-- ===== src/Cash/Keeps/Open.antt =====
-- A new session with its opening movement.
use aris_cloud.Prelude.{
  sym, ◌∙◌, ℕ, ◌≡◌, ◌≢◌, refl, false, Option, none, some, List, [], ◌∷◌, All, any, arith, select,
  Bool-cases, inl, inr,
}
use aris_cloud.Prelude.Int.{ℤ, pos, ◌+ℤ◌, ◌≤ℤ◌, int_laws}
use aris_cloud.Cash.Db.{
  CashSession, CashMovement, CashCut, CashDb, Caller, is_open_for, is_day_closed, latest,
  open_session_query,
}
use aris_cloud.Cash.Session.{opened_session, opening_movement}
use aris_cloud.Cash.Flow.{is_open_of}
use aris_cloud.Cash.Rows.{All-ne, find}
use aris_cloud.Cash.Ledger.{
  signed, balance, IsAttachedTo, IsAttached, IsCutOf, IsUnlocked, IsBalanced, IsLedger,
}

latest-ne-none : (s : CashSession) (rows : List CashSession) → latest (s ∷ rows) ≢ none
unfolding latest
latest-ne-none s rows e = ground arith

-- No visible open session means no open session of the cashier at all.
none_open :
    (db : CashDb) (t s cashier : ℕ) (rows : List CashSession)
    → All (IsUnlocked db.day_closes) rows
    → latest (select (is_open_for db t s cashier) rows) ≡ none
    → any (is_open_of t s cashier) rows ≡ false
none_open db t s cashier [] u e = refl
none_open db t s cashier (row ∷ rows) u e = elim (Bool-cases (is_open_for db t s cashier row)) [
  | inl visible ↦
      absurd (latest-ne-none row (select (is_open_for db t s cashier) rows) (rw visible at e))
  | inr hidden ↦ ground (arith, u.0, none_open db t s cashier rows u.1 (rw hidden at e))
]

balance_unused :
    (k : ℕ) (rows : List CashSession) (ms : List CashMovement)
    → find k rows ≡ none
    → All (IsAttached rows) ms
    → balance k ms ≡ pos 0
unfolding balance
balance_unused k rows [] new h = refl
balance_unused k rows (m ∷ ms) new h = ground (arith, balance_unused k rows ms new h.1)

module _ (c : Caller) (amount : ℤ) (date : ℕ) where
  opened-balance :
      (ms : List CashMovement)
      → balance c.new_id ms ≡ pos 0
      → amount ≡ balance c.new_id (opening_movement c amount date ∷ ms)
  unfolding balance signed
  opened-balance ms empty_yet =
      let zero_right : amount ≡ amount +ℤ pos 0 = omega int_laws in ground (arith, zero_right)

  balance-others :
      (k : ℕ) (ms : List CashMovement)
      → k ≢ c.new_id
      → balance k (opening_movement c amount date ∷ ms) ≡ balance k ms
  unfolding balance
  balance-others k ms other = ground arith

  IsAttachedTo-opened :
      (k : Option ℕ) (rows : List CashSession) (m : CashMovement)
      → find c.new_id rows ≡ none
      → IsAttachedTo k rows m
      → IsAttachedTo k (opened_session c amount date ∷ rows) m
  unfolding find
  IsAttachedTo-opened none rows m fresh h = h
  IsAttachedTo-opened (some k) rows m fresh h = ground arith

  All-IsAttached-opened :
      (rows : List CashSession) (ms : List CashMovement)
      → find c.new_id rows ≡ none
      → All (IsAttached rows) ms
      → All (IsAttached (opened_session c amount date ∷ rows)) ms
  All-IsAttached-opened rows [] fresh h = tt
  All-IsAttached-opened rows (m ∷ ms) fresh h = (
    IsAttachedTo-opened m.cash_session_id rows m fresh h.0,
    All-IsAttached-opened rows ms fresh h.1,
  )

  opened-IsCutOf :
      (rows : List CashSession) (cuts : List CashCut)
      → find c.new_id rows ≡ none
      → All (IsCutOf rows) cuts
      → All (IsCutOf (opened_session c amount date ∷ rows)) cuts
  unfolding find
  opened-IsCutOf rows [] fresh h = tt
  opened-IsCutOf rows (x ∷ cuts) fresh h = (ground arith, opened-IsCutOf rows cuts fresh h.1)

  opening-IsAttached :
      (rows : List CashSession)
      → IsAttached (opened_session c amount date ∷ rows) (opening_movement c amount date)
  unfolding find
  opening-IsAttached rows = ground arith

  -- A session with a fresh id, opened where no session of the cashier is visible, on a day that is
  -- not closed.
  pub opened-IsLedger :
      (db : CashDb)
      → IsLedger db
      → find c.new_id db.sessions ≡ none
      → pos 0 ≤ℤ amount
      → is_day_closed db.day_closes c.tenant_id c.store_id date ≡ false
      → open_session_query db c.tenant_id c.store_id c.user_id ≡ none
      → IsLedger (record db {
        sessions = opened_session c amount date ∷ db.sessions;
        movements = opening_movement c amount date ∷ db.movements;
      })
  unfolding open_session_query
  opened-IsLedger db l fresh amount_ok day_open unseen = record {
    unique = (fresh, l.unique);
    balanced = (
      opened-balance db.movements
          (balance_unused c.new_id db.sessions db.movements fresh l.attached),
      All-ne (IsBalanced db.movements) (IsBalanced (opening_movement c amount date ∷ db.movements))
          c.new_id db.sessions fresh (λ x other b. b ∙ sym (balance-others x.id db.movements other))
          l.balanced,
    );
    non_negative = (amount_ok, l.non_negative);
    attached = (
      opening-IsAttached db.sessions,
      All-IsAttached-opened db.sessions db.movements fresh l.attached,
    );
    unlocked = (λ is_open. (day_open, refl), l.unlocked);
    single = (
      λ is_open. none_open db c.tenant_id c.store_id c.user_id db.sessions l.unlocked unseen,
      l.single,
    );
    cut_from = opened-IsCutOf db.sessions db.cuts fresh l.cut_from;
  }
