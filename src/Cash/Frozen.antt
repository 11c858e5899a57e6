-- ===== src/Cash/Frozen.antt =====
-- What leaves the reconciliation of a closed day as it was.
pub mod Flow
use aris_cloud.Prelude.{
  [], ◌==◌, first, leb, if◌then◌else◌, is_some, not, ℕ, ◌≡◌, refl, true, false, Option, none, some,
  List, ◌∷◌, arith, select, is_empty,
}
use aris_cloud.Prelude.Int.{◌+ℤ◌, ℤ, pos, ◌-ℤ◌, leb_ℤ}
use aris_cloud.Prelude.Result.{
  ok, or_raise-some, resource_not_found, raise_if, or_raise, Ensures, Ensures-bind, Ensures-if,
  Ensures-ok, validation_error, business_conflict,
}
use aris_cloud.Prelude.Text.{Text}
use aris_cloud.Cash.Db.{
  MovementType, CashCut, CashSession, CashMovement, CashDb, Caller, is_opened, is_day_closed,
  ensure_not_closed, ensure_positive_amount, ensure_non_negative_balance, open_session_query,
}
use aris_cloud.Cash.Session.{
  SessionAction, open_action, cash_in_action, cash_out_action, close_action, other_action,
  open_cash_session, act_on_session, act_on_open, cash_session_action,
}
use aris_cloud.Cash.Flow.{
  adds_cash, flow_movement, require_open_cash_session, active_session, record_cash_movement,
  checkout_cash, refund_cash, exchange_cash, exchange_action, exchange_amount, issue_voucher_cash,
  refund_voucher_cash, record_non_cash_voucher_movement,
}
use aris_cloud.Cash.DayClose.{
  Sums, Total, is_action, movement_types, day_close_movement, total_of, is_on_day, rollup_rows,
  reconciliation_rollup, DayClosePayload, close_day, closed_day, check_open_sessions, is_open_on,
}
use aris_cloud.Cash.Cuts.{
  CutPayload, CutAction, void_action, print_mark_action, complete_action, apply_cash_out_action,
  is_cut, cut_cash_out, store_cut, deposit_to_apply, resolve_active_session, resolve_cut_window,
  create_cash_cut, act_on_cut, cash_cut_action,
}
use aris_cloud.Cash.Rows.{All-find}
use aris_cloud.Cash.Ledger.{IsLedger, IsUnlocked}
use aris_cloud.Cash.Keeps.Cuts.{cut_session-IsOfCaller}
use aris_cloud.Cash.Serve.{Request, perform}

pub silent_voucher : (n : ℕ) (a : MovementType) → is_action a (MovementType.voucher n) ≡ false
silent_voucher n MovementType.open_session = refl
silent_voucher n _ = refl

pub silent_close : (a : MovementType) → is_action a MovementType.day_close ≡ false
silent_close MovementType.open_session = refl
silent_close _ = refl

module _ (sums : Sums) (t s d : ℕ) where
  -- The day's reconciliation is as it was, and the day is still closed.
  pub record IsFrozen (db db' : CashDb) : Type 0 where
    pub same_rollup : reconciliation_rollup sums db' t s d ≡ reconciliation_rollup sums db t s d
    pub still_closed : is_day_closed db'.day_closes t s d ≡ true

  rollup-skip_day :
      (m : CashMovement) (db : CashDb) (rows : List CashSession) (cuts : List CashCut)
      → is_on_day t s d m ≡ false
      → reconciliation_rollup sums
          (record db { sessions = rows; movements = m ∷ db.movements; cuts = cuts })
          t
          s
          d
        ≡ reconciliation_rollup sums db t s d
  unfolding reconciliation_rollup
  rollup-skip_day m db rows cuts h = ground arith

  -- A movement whose action is none of the totals'.
  total_of-silent :
      (key : Total) (m : CashMovement) (rows : List CashMovement) (actions : List MovementType)
      → ((a : MovementType) → is_action a m.action ≡ false)
      → total_of sums key (m ∷ rows) actions ≡ total_of sums key rows actions
  unfolding total_of
  total_of-silent key m rows [] silent = refl
  total_of-silent key m rows (a ∷ actions) silent =
      ground (arith, silent a, total_of-silent key m rows actions silent)

  rollup_rows-silent :
      (m : CashMovement) (rows : List CashMovement)
      → ((a : MovementType) → is_action a m.action ≡ false)
      → rollup_rows sums (m ∷ rows) ≡ rollup_rows sums rows
  unfolding rollup_rows
  rollup_rows-silent m rows silent = ground (
    arith,
    total_of-silent Total.opening m rows movement_types silent,
    total_of-silent Total.cash_in m rows movement_types silent,
    total_of-silent Total.cash_out m rows movement_types silent,
    total_of-silent Total.sale_cash_in m rows movement_types silent,
    total_of-silent Total.cash_out_refund m rows movement_types silent,
  )

  pub rollup-silent :
      (m : CashMovement) (db : CashDb)
      → ((a : MovementType) → is_action a m.action ≡ false)
      → reconciliation_rollup sums (record db { movements = m ∷ db.movements }) t s d
        ≡ reconciliation_rollup sums db t s d
  unfolding reconciliation_rollup
  rollup-silent m db silent =
      ground (arith, rollup_rows-silent m (select (is_on_day t s d) db.movements) silent)

  module _ (db : CashDb) (was_closed : is_day_closed db.day_closes t s d ≡ true) where
    pub unchanged : IsFrozen db db
    unchanged = record { same_rollup = refl; still_closed = was_closed }

    -- A movement on a day that is not closed.
    pub write_cut-IsFrozen :
        (m : CashMovement) (rows : List CashSession) (cuts : List CashCut)
        → is_day_closed db.day_closes m.tenant_id m.store_id m.business_date ≡ false
        → IsFrozen db (record db { sessions = rows; movements = m ∷ db.movements; cuts = cuts })
    write_cut-IsFrozen m rows cuts h = record {
      same_rollup = rollup-skip_day m db rows cuts (ground arith);
      still_closed = was_closed;
    }

    pub write-IsFrozen :
        (m : CashMovement) (rows : List CashSession)
        → is_day_closed db.day_closes m.tenant_id m.store_id m.business_date ≡ false
        → IsFrozen db (record db { sessions = rows; movements = m ∷ db.movements })
    write-IsFrozen m rows h = write_cut-IsFrozen m rows db.cuts h

    pub not_closed :
        (t' s' d' : ℕ) {u : Unit {0}}
        → ensure_not_closed db t' s' d' ≡ ok u
        → is_day_closed db.day_closes t' s' d' ≡ false
    unfolding ensure_not_closed
    not_closed t' s' d' h = ground arith
