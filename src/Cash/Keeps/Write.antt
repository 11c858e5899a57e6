-- ===== src/Cash/Keeps/Write.antt =====
-- A session's new row with the movement that tells of it.
use aris_cloud.Prelude.{
  sym, ◌∙◌, ℕ, ◌≡◌, ◌≢◌, refl, Bool, true, false, Option, none, some, List, [], ◌∷◌, All, any,
  arith,
}
use aris_cloud.Prelude.Int.{◌+ℤ◌}
use aris_cloud.Cash.Db.{opened, CashSession, CashMovement, CashCut, CashDb, put}
use aris_cloud.Cash.Session.{write}
use aris_cloud.Cash.Flow.{is_open_of}
use aris_cloud.Cash.Rows.{find, IsStored, find_id, All-put, find-put, put-UniqueIds}
use aris_cloud.Cash.Ledger.{
  effect, balance, IsAttachedTo, IsAttached, IsCutOf, IsUnlocked, SingleOpen, IsBalanced,
  IsNonNegative, IsLedger,
}

-- A row `r` that replaces the stored `s` after a movement `m` of its session.
pub record Follows (s r : CashSession) (m : CashMovement) : Type 0 where
  pub same_id : r.id ≡ s.id
  pub same_tenant : r.tenant_id ≡ s.tenant_id
  pub same_store : r.store_id ≡ s.store_id
  pub same_cashier : r.cashier_user_id ≡ s.cashier_user_id
  pub same_date : r.business_date ≡ s.business_date
  pub stays_open : r.status ≡ opened → (s.status ≡ opened) × (r.closed_at ≡ s.closed_at)
  pub moved_by : r.expected_cash ≡ effect m +ℤ s.expected_cash
  pub non_negative : IsNonNegative r
  pub of_session : m.cash_session_id ≡ some s.id
  pub of_tenant : m.tenant_id ≡ s.tenant_id
  pub of_store : m.store_id ≡ s.store_id
  pub of_date : m.business_date ≡ s.business_date

module _ (db : CashDb) (s r : CashSession) (m : CashMovement) where
  balance-other :
      (k : ℕ) → Follows s r m → k ≢ s.id → balance k (m ∷ db.movements) ≡ balance k db.movements
  unfolding balance
  balance-other k f other = ground arith

  balance-own : Follows s r m → IsBalanced db.movements s → IsBalanced (m ∷ db.movements) r
  unfolding balance
  balance-own f h = ground arith

any-put :
    (p : CashSession → Bool) (r old : CashSession) (rows : List CashSession)
    → find r.id rows ≡ some old
    → (p r ≡ true → p old ≡ true)
    → any p rows ≡ false
    → any p (put r rows) ≡ false
unfolding find put
any-put p r old [] found h none_yet = refl
any-put p r old (s ∷ rows) found h none_yet = ground (arith, any-put p r old rows)

put-SingleOpen :
    (r old : CashSession) (m : CashMovement) (rows : List CashSession)
    → find r.id rows ≡ some old
    → Follows old r m
    → SingleOpen rows
    → SingleOpen (put r rows)
unfolding find put
put-SingleOpen r old m [] found f h = tt
put-SingleOpen r old m (s ∷ rows) found f h = ground (
  arith,
  any-put (is_open_of s.tenant_id s.store_id s.cashier_user_id) r old rows,
  put-SingleOpen r old m rows,
)

put-IsAttachedTo :
    (k : Option ℕ) (r old : CashSession) (m m' : CashMovement) (rows : List CashSession)
    → IsStored old rows
    → Follows old r m
    → IsAttachedTo k rows m'
    → IsAttachedTo k (put r rows) m'
put-IsAttachedTo none r old m m' rows stored f h = h
put-IsAttachedTo (some k) r old m m' rows stored f h =
    ground (arith, find-put k r rows, find_id k rows)

put-All-IsAttached :
    (r old : CashSession) (m : CashMovement) (rows : List CashSession) (ms : List CashMovement)
    → IsStored old rows
    → Follows old r m
    → All (IsAttached rows) ms
    → All (IsAttached (put r rows)) ms
put-All-IsAttached r old m rows [] stored f h = tt
put-All-IsAttached r old m rows (m' ∷ ms) stored f h = (
  put-IsAttachedTo m'.cash_session_id r old m m' rows stored f h.0,
  put-All-IsAttached r old m rows ms stored f h.1,
)

put-IsCutOf :
    (r old : CashSession) (m : CashMovement) (rows : List CashSession) (x : CashCut)
    → IsStored old rows
    → Follows old r m
    → IsCutOf rows x
    → IsCutOf (put r rows) x
put-IsCutOf r old m rows x stored f h =
    ground (arith, find-put x.cash_session_id r rows, find_id x.cash_session_id rows)

put-All-IsCutOf :
    (r old : CashSession) (m : CashMovement) (rows : List CashSession) (cuts : List CashCut)
    → IsStored old rows
    → Follows old r m
    → All (IsCutOf rows) cuts
    → All (IsCutOf (put r rows)) cuts
put-All-IsCutOf r old m rows [] stored f h = tt
put-All-IsCutOf r old m rows (x ∷ cuts) stored f h =
    (put-IsCutOf r old m rows x stored f h.0, put-All-IsCutOf r old m rows cuts stored f h.1)

-- The movement itself names the stored session.
new-IsAttached :
    (r old : CashSession) (m : CashMovement) (rows : List CashSession)
    → IsStored old rows
    → Follows old r m
    → IsAttached (put r rows) m
new-IsAttached r old m rows stored f = ground (arith, find-put old.id r rows)

module _ (db : CashDb) (s r : CashSession) (m : CashMovement) where
  -- Writing a row that follows a stored one, with its movement, keeps the invariant.
  pub write-IsLedger :
      IsLedger db → IsStored s db.sessions → Follows s r m → IsLedger (write db r m)
  write-IsLedger l stored f =
      let found : find r.id db.sessions ≡ some s = rw (f.same_id) stored in
      record {
        unique = put-UniqueIds r db.sessions l.unique;
        balanced =
            All-put (IsBalanced db.movements) (IsBalanced (m ∷ db.movements)) r s db.sessions
              l.unique found
              (λ x other b.
                b ∙ sym (balance-other db s r m x.id f (λ e. other (e ∙ sym f.same_id))))
              (λ b. balance-own db s r m f b) l.balanced;
        non_negative =
            All-put IsNonNegative IsNonNegative r s db.sessions l.unique found (λ x other h. h)
              (λ h. f.non_negative) l.non_negative;
        attached = (
          new-IsAttached r s m db.sessions stored f,
          put-All-IsAttached r s m db.sessions db.movements stored f l.attached,
        );
        unlocked =
            All-put (IsUnlocked db.day_closes) (IsUnlocked db.day_closes) r s db.sessions l.unique
              found (λ x other h. h) (λ h is_open. ground (arith, f, h)) l.unlocked;
        single = put-SingleOpen r s m db.sessions found f l.single;
        cut_from = put-All-IsCutOf r s m db.sessions db.cuts stored f l.cut_from;
      }
