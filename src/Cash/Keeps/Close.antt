-- ===== src/Cash/Keeps/Close.antt =====
-- The close of a day: its open sessions are closed, and the day is locked.
use aris_cloud.Prelude.{ℕ, ◌≡◌, refl, false, Option, none, some, List, [], ◌∷◌, All, any, arith}
use aris_cloud.Cash.Db.{
  CashSession, CashMovement, CashDayClose, CashCut, CashDb, Caller, is_day_closed,
}
use aris_cloud.Cash.DayClose.{
  Sums, Rollup, DayClosePayload, close_open_sessions, day_close_movement, day_close_row,
}
use aris_cloud.Cash.Flow.{is_open_of}
use aris_cloud.Cash.Rows.{find, UniqueIds}
use aris_cloud.Cash.Ledger.{
  signed, balance, IsAttachedTo, IsAttached, IsOfStore, IsCutOf, IsUnlocked, SingleOpen, IsBalanced,
  IsNonNegative, IsLedger,
}

module _ (t s d now : ℕ) where
  find-close_open_sessions :
      (k : ℕ) (rows : List CashSession)
      → find k rows ≡ none
      → find k (close_open_sessions t s d now rows) ≡ none
  unfolding find close_open_sessions
  find-close_open_sessions k [] h = refl
  find-close_open_sessions k (r ∷ rows) h = ground (arith, find-close_open_sessions k rows)

  close-UniqueIds :
      (rows : List CashSession) → UniqueIds rows → UniqueIds (close_open_sessions t s d now rows)
  unfolding close_open_sessions
  close-UniqueIds [] u = tt
  close-UniqueIds (r ∷ rows) u =
      ground (arith, find-close_open_sessions r.id rows u.0, close-UniqueIds rows u.1)

  close-IsBalanced :
      (ms : List CashMovement) (rows : List CashSession)
      → All (IsBalanced ms) rows
      → All (IsBalanced ms) (close_open_sessions t s d now rows)
  unfolding close_open_sessions
  close-IsBalanced ms [] h = tt
  close-IsBalanced ms (r ∷ rows) h = ground (arith, close-IsBalanced ms rows h.1)

  close-IsNonNegative :
      (rows : List CashSession)
      → All IsNonNegative rows
      → All IsNonNegative (close_open_sessions t s d now rows)
  unfolding close_open_sessions
  close-IsNonNegative [] h = tt
  close-IsNonNegative (r ∷ rows) h = ground (arith, close-IsNonNegative rows h.1)

  IsOfDay-close :
      (k : ℕ) (rows : List CashSession) (m : CashMovement)
      → IsAttachedTo (some k) rows m
      → IsAttachedTo (some k) (close_open_sessions t s d now rows) m
  unfolding find close_open_sessions
  IsOfDay-close k [] m h = h
  IsOfDay-close k (r ∷ rows) m h = ground (arith, IsOfDay-close k rows m)

  IsAttachedTo-close :
      (k : Option ℕ) (rows : List CashSession) (m : CashMovement)
      → IsAttachedTo k rows m
      → IsAttachedTo k (close_open_sessions t s d now rows) m
  IsAttachedTo-close none rows m h = h
  IsAttachedTo-close (some k) rows m h = IsOfDay-close k rows m h

  close-IsAttached :
      (rows : List CashSession) (ms : List CashMovement)
      → All (IsAttached rows) ms
      → All (IsAttached (close_open_sessions t s d now rows)) ms
  close-IsAttached rows [] h = tt
  close-IsAttached rows (m ∷ ms) h =
      (IsAttachedTo-close m.cash_session_id rows m h.0, close-IsAttached rows ms h.1)

  IsCutOf-close :
      (k : ℕ) (rows : List CashSession) (x : CashCut)
      → IsOfStore (find k rows) x
      → IsOfStore (find k (close_open_sessions t s d now rows)) x
  unfolding find close_open_sessions
  IsCutOf-close k [] x h = h
  IsCutOf-close k (r ∷ rows) x h = ground (arith, IsCutOf-close k rows x)

  close-IsCutOf :
      (rows : List CashSession) (cuts : List CashCut)
      → All (IsCutOf rows) cuts
      → All (IsCutOf (close_open_sessions t s d now rows)) cuts
  close-IsCutOf rows [] h = tt
  close-IsCutOf rows (x ∷ cuts) h =
      (IsCutOf-close x.cash_session_id rows x h.0, close-IsCutOf rows cuts h.1)

  any-close :
      (t' s' cashier : ℕ) (rows : List CashSession)
      → any (is_open_of t' s' cashier) rows ≡ false
      → any (is_open_of t' s' cashier) (close_open_sessions t s d now rows) ≡ false
  unfolding close_open_sessions
  any-close t' s' cashier [] h = refl
  any-close t' s' cashier (r ∷ rows) h = ground (arith, any-close t' s' cashier rows)

  close-SingleOpen :
      (rows : List CashSession) → SingleOpen rows → SingleOpen (close_open_sessions t s d now rows)
  unfolding close_open_sessions
  close-SingleOpen [] h = tt
  close-SingleOpen (r ∷ rows) h =
      ground
        (arith, any-close r.tenant_id r.store_id r.cashier_user_id rows, close-SingleOpen rows h.1)

-- With the new day close, the sessions that are still open are of other days.
close-IsUnlocked :
    (sums : Sums) (c : Caller) (p : DayClosePayload) (rollup : Rollup) (closes : List CashDayClose)
    (rows : List CashSession)
    → All (IsUnlocked closes) rows
    → All
        (IsUnlocked (day_close_row sums c p rollup ∷ closes))
        (close_open_sessions c.tenant_id c.store_id p.business_date c.now rows)
unfolding close_open_sessions is_day_closed
close-IsUnlocked sums c p rollup closes [] h = tt
close-IsUnlocked sums c p rollup closes (r ∷ rows) h =
    ground (arith, close-IsUnlocked sums c p rollup closes rows h.1)

day_close-IsAttached :
    (c : Caller) (date : ℕ) (rows : List CashSession) → IsAttached rows (day_close_movement c date)
unfolding signed
day_close-IsAttached c date rows = refl

pub balance-no_session :
    (m : CashMovement) (ms : List CashMovement) (rows : List CashSession)
    → m.cash_session_id ≡ none
    → All (IsBalanced ms) rows
    → All (IsBalanced (m ∷ ms)) rows
unfolding balance
balance-no_session m ms [] e h = tt
balance-no_session m ms (r ∷ rows) e h = (ground arith, balance-no_session m ms rows e h.1)

pub closed-IsLedger :
    (sums : Sums) (c : Caller) (p : DayClosePayload) (rollup : Rollup) (db : CashDb)
    → IsLedger db
    → IsLedger (record db {
      sessions = close_open_sessions c.tenant_id c.store_id p.business_date c.now db.sessions;
      movements = day_close_movement c p.business_date ∷ db.movements;
      day_closes = day_close_row sums c p rollup ∷ db.day_closes;
    })
closed-IsLedger sums c p rollup db l =
    let rows = close_open_sessions c.tenant_id c.store_id p.business_date c.now db.sessions in
    record {
      unique = close-UniqueIds c.tenant_id c.store_id p.business_date c.now db.sessions l.unique;
      balanced = balance-no_session (day_close_movement c p.business_date) db.movements rows refl (
          close-IsBalanced c.tenant_id c.store_id p.business_date c.now db.movements db.sessions
            l.balanced);
      non_negative =
          close-IsNonNegative c.tenant_id c.store_id p.business_date c.now db.sessions
            l.non_negative;
      attached = (
        day_close-IsAttached c p.business_date rows,
        close-IsAttached c.tenant_id c.store_id p.business_date c.now db.sessions db.movements
            l.attached,
      );
      unlocked = close-IsUnlocked sums c p rollup db.day_closes db.sessions l.unlocked;
      single = close-SingleOpen c.tenant_id c.store_id p.business_date c.now db.sessions l.single;
      cut_from =
          close-IsCutOf c.tenant_id c.store_id p.business_date c.now db.sessions db.cuts l.cut_from;
    }
