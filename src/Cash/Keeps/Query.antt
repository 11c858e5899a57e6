-- ===== src/Cash/Keeps/Query.antt =====
-- The sessions that the queries of a caller return are stored, and of the caller's store.
use aris_cloud.Prelude.{◌≡◌, some, arith, select, first, Option-cases, inl, inr}
use aris_cloud.Prelude.Result.{ok}
use mathlib.Core.Path.{subst}
use aris_cloud.Cash.Db.{CashSession, CashDb, Caller, is_open_for, open_session_query}
use aris_cloud.Cash.Flow.{is_open_of, is_open_in, only, require_open_cash_session, active_session}
use aris_cloud.Cash.Rows.{IsStored, latest-IsPicked, first-IsPicked, only-IsPicked}
use aris_cloud.Cash.Ledger.{IsLedger}

-- A session that a query of the caller's store returned.
pub record IsOfCaller (c : Caller) (db : CashDb) (s : CashSession) : Type 0 where
  pub stored : IsStored s db.sessions
  pub tenant : c.tenant_id ≡ s.tenant_id
  pub store : c.store_id ≡ s.store_id

module _ (c : Caller) (db : CashDb) (l : IsLedger db) where
  pub open_session_query-IsOfCaller :
      (s : CashSession)
      → open_session_query db c.tenant_id c.store_id c.user_id ≡ some s
      → IsOfCaller c db s
  unfolding open_session_query
  open_session_query-IsOfCaller s e =
      let (stored, passes) =
        latest-IsPicked (is_open_for db c.tenant_id c.store_id c.user_id) db.sessions l.unique
          {s = s} e in
      record { stored = stored; tenant = ground arith; store = ground arith }

  pub active_session-IsOfCaller :
      (s : CashSession) → active_session c db ≡ some s → IsOfCaller c db s
  unfolding active_session
  active_session-IsOfCaller s e =
      let (stored, passes) = latest-IsPicked _ db.sessions l.unique {s = s} e in
      record { stored = stored; tenant = ground arith; store = ground arith }

  pub require_open_cash_session-IsOfCaller :
      (s : CashSession) → require_open_cash_session c db ≡ ok s → IsOfCaller c db s
  unfolding require_open_cash_session
  require_open_cash_session-IsOfCaller s e =
      elim (Option-cases
        (first (select (is_open_of c.tenant_id c.store_id c.user_id) db.sessions))) [
          | inr (own, found) ↦
              let (stored, passes) = first-IsPicked _ db.sessions l.unique {s = own} found in
              let q : own ≡ s = ground arith in
              subst (IsOfCaller c db) q
                (record { stored = stored; tenant = ground arith; store = ground arith })
          | inl none_own ↦
              elim (Option-cases (only (select (is_open_in c.tenant_id c.store_id) db.sessions))) [
                | inl none_at_all ↦ absurd (ground arith)
                | inr (other, found) ↦
                    let (stored, passes) = only-IsPicked _ db.sessions l.unique {s = other} found in
                    let q : other ≡ s = ground arith in
                    subst (IsOfCaller c db) q
                      (record { stored = stored; tenant = ground arith; store = ground arith })
              ]
        ]
