-- ===== src/Cash/Locked.antt =====
-- A day after its close: cuts of sessions, and all requests.
use aris_cloud.Prelude.{ℕ, ◌≡◌, true}
use aris_cloud.Cash.Db.{CashDb, is_day_closed}
use aris_cloud.Cash.DayClose.{Sums}
use aris_cloud.Cash.Ledger.{IsLedger}
use aris_cloud.Cash.Serve.{Request}
use aris_cloud.Cash.Frozen.{IsFrozen}

-- What an action on a cut needs of the tables: APPLY_CASH_OUT does not ask whether the day is closed.
abbrev pub IsSafe : Request → CashDb → Type 0
IsSafe (Request.cut_action c id action) db = IsLedger db
IsSafe _ db = Unit

module _ (sums : Sums) (t s d : ℕ) (db : CashDb)
    (was_closed : is_day_closed db.day_closes t s d ≡ true) where
  abbrev Frozen : CashDb → Type 0
  Frozen = IsFrozen sums t s d db
