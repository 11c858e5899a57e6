-- ===== src/Cash/Reach.antt =====
-- What holds of all tables that requests reach.
use aris_cloud.Prelude.Result.{Ensures-ok}
use aris_cloud.Cash.Db.{CashDb}
use aris_cloud.Cash.DayClose.{Sums}
use aris_cloud.Cash.Ledger.{IsLedger}
use aris_cloud.Cash.Keeps.Requests.{perform-IsLedger}
use aris_cloud.Cash.Serve.{perform, Reachable, start, next, empty}

empty-IsLedger : IsLedger empty
empty-IsLedger = record {
  unique = tt;
  balanced = tt;
  non_negative = tt;
  attached = tt;
  unlocked = tt;
  single = tt;
  cut_from = tt;
}

-- In all tables that successful requests make of empty ones, a new session getting a new id: session
-- ids are unique; each session's expected cash is what its movements add up to, and is not negative;
-- each movement of cash belongs to a session of its tenant, store and date; an open session's day is
-- not closed; a cashier has at most one open session in a store; and each cut's session is of the cut's
-- tenant and store.
pub Reachable-IsLedger : (sums : Sums) {db : CashDb} → Reachable sums db → IsLedger db
Reachable-IsLedger sums start = empty-IsLedger
Reachable-IsLedger sums (next {db} {db'} r before fresh e) =
    Ensures-ok IsLedger (perform sums r db)
      (perform-IsLedger sums r db (Reachable-IsLedger sums before) fresh) e
