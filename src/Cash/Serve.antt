-- ===== src/Cash/Serve.antt =====
-- The requests that write the cash tables, as one step of the service each. A request that raises
-- has its transaction rolled back.
use aris_cloud.Prelude.{ℕ, ◌≡◌, none, []}
use aris_cloud.Prelude.Int.{ℤ}
use aris_cloud.Prelude.Text.{Text}
use aris_cloud.Prelude.Result.{Result, ok}
use aris_cloud.Cash.Db.{CashDb, Caller}
use aris_cloud.Cash.Session.{SessionAction, cash_session_action}
use aris_cloud.Cash.Flow.{
  checkout_cash, refund_cash, exchange_cash, issue_voucher_cash, refund_voucher_cash,
  record_non_cash_voucher_movement,
}
use aris_cloud.Cash.DayClose.{Sums, DayClosePayload, close_day}
use aris_cloud.Cash.Cuts.{CutPayload, CutAction, create_cash_cut, cash_cut_action}
use aris_cloud.Cash.Rows.{find}

pub data Request : Type 0 where
  session_action : Caller → SessionAction → Request
  checkout : Caller → ℕ → ℤ → ℤ → Request
  refund : Caller → ℕ → ℤ → Request
  exchange : Caller → ℕ → ℤ → ℤ → ℤ → Request
  issue_voucher : Caller → ℕ → ℤ → Request
  refund_voucher : Caller → ℕ → ℤ → Request
  non_cash_voucher : Caller → ℕ → ℕ → ℕ → ℤ → Request
  day_close : Caller → Text → DayClosePayload → Request
  create_cut : Caller → CutPayload → Request
  cut_action : Caller → ℕ → CutAction → Request

unfoldable pub perform : Sums → Request → CashDb → Result CashDb
perform sums (session_action c action) db = cash_session_action c action db
perform sums (checkout c sale cash change) db = checkout_cash c sale cash change db
perform sums (refund c sale cash) db = refund_cash c sale cash db
perform sums (exchange c sale delta cash change) db = exchange_cash c sale delta cash change db
perform sums (issue_voucher c voucher amount) db = issue_voucher_cash c voucher amount db
perform sums (refund_voucher c voucher amount) db = refund_voucher_cash c voucher amount db
perform sums (non_cash_voucher c today action voucher amount) db =
    ok (record_non_cash_voucher_movement c today action voucher amount db)
perform sums (day_close c role payload) db = close_day sums c role payload db
perform sums (create_cut c payload) db = create_cash_cut c payload db
perform sums (cut_action c id action) db = cash_cut_action c id action db

-- `uuid4` gives the new session an id that no session has.
abbrev pub IsFresh : Request → CashDb → Type 0
IsFresh (session_action c action) db = find c.new_id db.sessions ≡ none
IsFresh _ db = Unit

abbrev pub empty : CashDb
empty = record { sessions = []; movements = []; day_closes = []; cuts = [] }

-- What successful requests make of empty tables.
pub data Reachable (sums : Sums) : CashDb → Type 0 where
  start : Reachable sums empty
  next :
      {db db' : CashDb} (r : Request)
      → Reachable sums db
      → IsFresh r db
      → perform sums r db ≡ ok db'
      → Reachable sums db'
