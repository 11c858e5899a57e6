-- ===== src/Cash/Cuts.antt =====
-- `create_cash_cut` and `cash_cut_action` of app/aris3/routers/pos_cash.py, after the resolution of the
-- scope. Of the quote only the test of its window is here: its totals are copied to the cut alone.
use aris_cloud.Prelude.{
  ℕ, ◌+◌, Bool, not, ◌&&◌, Option, none, some, List, [], ◌∷◌, ◌==◌, ltb, leb, is_some, or_else,
  first, select, if◌then◌else◌,
}
use aris_cloud.Prelude.Int.{ℤ, pos, ◌-ℤ◌, ltb_ℤ}
use aris_cloud.Prelude.Result.{
  Result, ok, ◌>>=◌, ◌>>◌, raise_if, or_raise, validation_error, business_conflict,
  resource_not_found,
}
use aris_cloud.Cash.Db.{
  MovementType, CashSession, CashCut, open_cut, completed_cut, void_cut, CashDb, Caller, is_opened,
  ensure_not_closed, ensure_positive_amount, ensure_non_negative_balance, open_session_query,
}
use aris_cloud.Cash.Session.{session_movement, write}
use aris_cloud.Cash.Flow.{is_open_of}

-- The payload of `create_cash_cut`.
pub record CutPayload : Type 0 where
  pub cash_session_id : Option ℕ
  pub use_last_cut_window : Bool
  pub from_at : Option ℕ
  pub to_at : Option ℕ
  pub counted_cash : Option ℤ
  pub deposit_removed_amount : Option ℤ
  pub auto_apply_cash_out : Bool

abbrev pub is_active_session : Caller → ℕ → CashSession → Bool
is_active_session c id row =
    row.id == id && is_open_of c.tenant_id c.store_id c.user_id row && not (is_some row.closed_at)

-- The day of a session that is named by its id may be closed.
unfoldable pub resolve_active_session : Caller → Option ℕ → CashDb → Option CashSession
unfolding open_session_query
resolve_active_session c none db = open_session_query db c.tenant_id c.store_id c.user_id
resolve_active_session c (some id) db = first (select (is_active_session c id) db.sessions)

-- The session's cut of the highest number.
unfoldable pub last_cut : ℕ → List CashCut → Option CashCut
last_cut session [] = none
last_cut session (x ∷ cuts) =
    let rest = last_cut session cuts in
    if x.cash_session_id == session
    then elim rest [
      | none ↦ some x
      | some y ↦ if ltb x.cut_number y.cut_number then some y else some x
    ]
    else rest

abbrev pub next_number : Option CashCut → ℕ
next_number none = 1
next_number (some x) = x.cut_number + 1

unfoldable pub resolve_cut_window : Caller → CutPayload → CashSession → CashDb → ℕ × ℕ
unfolding last_cut
resolve_cut_window c payload s db =
    let to = or_else payload.to_at c.now in
    elim payload.from_at [
      | some from ↦ (from, to)
      | none ↦
          if payload.use_last_cut_window
          then elim (last_cut s.id db.cuts) [ some x ↦ (x.to_at, to) | none ↦ (s.opened_at, to) ]
          else (s.opened_at, to)
    ]

abbrev pub new_cut : Caller → CutPayload → CashSession → ℕ → ℕ × ℕ → CashCut
new_cut c payload s number window = record {
  id = c.new_id;
  tenant_id = c.tenant_id;
  store_id = c.store_id;
  cash_session_id = s.id;
  cut_number = number;
  from_at = window.0;
  to_at = window.1;
  counted_cash = payload.counted_cash;
  deposit_removed_amount = payload.deposit_removed_amount;
  status = if is_some payload.counted_cash then completed_cut else open_cut;
  completed_at = if is_some payload.counted_cash then some c.now else none;
}

-- The cash that a cut takes out of its session.
unfoldable pub cut_cash_out : Caller → CashSession → ℤ → List CashCut → CashDb → Result CashDb
unfolding ensure_non_negative_balance
cut_cash_out c s amount cuts db = do
  let after = s.expected_cash -ℤ amount
  ensure_non_negative_balance after
  ok (
      write (record db { cuts = cuts }) (record s { expected_cash = after })
        (session_movement c s MovementType.cash_out amount after))

-- `if payload.auto_apply_cash_out and deposit_removed and deposit_removed > 0`
abbrev pub deposit_to_apply : CutPayload → Option ℤ
deposit_to_apply payload =
    if payload.auto_apply_cash_out
    then elim payload.deposit_removed_amount [
      | none ↦ none
      | some amount ↦ if ltb_ℤ (pos 0) amount then some amount else none
    ]
    else none

-- The cut is stored, with its deposit.
unfoldable pub store_cut : Caller → CashSession → Option ℤ → List CashCut → CashDb → Result CashDb
unfolding cut_cash_out
store_cut c s none cuts db = ok (record db { cuts = cuts })
store_cut c s (some amount) cuts db = cut_cash_out c s amount cuts db

unfoldable pub create_cash_cut : Caller → CutPayload → CashDb → Result CashDb
unfolding resolve_active_session ensure_not_closed resolve_cut_window last_cut store_cut
create_cash_cut c payload db = do
  s ← or_raise (resolve_active_session c payload.cash_session_id db) business_conflict
  ensure_not_closed db c.tenant_id c.store_id s.business_date
  let window = resolve_cut_window c payload s db
  raise_if (leb window.1 window.0) validation_error
  let cut = new_cut c payload s (next_number (last_cut s.id db.cuts)) window
  store_cut c s (deposit_to_apply payload) (cut ∷ db.cuts) db

pub data CutAction : Type 0 where
  void_action print_mark_action : CutAction
  complete_action apply_cash_out_action : Option ℤ → CutAction

abbrev pub is_cut : Caller → ℕ → CashCut → Bool
is_cut c id x = x.id == id && x.tenant_id == c.tenant_id && x.store_id == c.store_id

unfoldable pub put_cut : CashCut → List CashCut → List CashCut
put_cut x [] = []
put_cut x (y ∷ cuts) = let rest = put_cut x cuts in (if y.id == x.id then x else y) ∷ rest

-- The branches on the action. APPLY_CASH_OUT asks for an open session, not for a day that is open.
unfoldable pub act_on_cut : Caller → CutAction → CashCut → CashDb → Result CashDb
unfolding put_cut ensure_positive_amount cut_cash_out
act_on_cut c void_action x db =
    ok (record db { cuts = put_cut (record x { status = void_cut }) db.cuts })
act_on_cut c print_mark_action x db = ok db
act_on_cut c (complete_action counted_cash) x db = do
  counted ← or_raise counted_cash validation_error
  ok (record db {
    cuts =
        put_cut
          (record x {
            status = completed_cut;
            counted_cash = some counted;
            completed_at = some c.now;
          })
          db.cuts;
  })
act_on_cut c (apply_cash_out_action requested) x db = do
  amount ← ensure_positive_amount requested
  s ← or_raise (first (select (λ row. row.id == x.cash_session_id) db.sessions)) business_conflict
  raise_if (not (is_opened s.status)) business_conflict
  cut_cash_out c s amount (put_cut (record x { deposit_removed_amount = some amount }) db.cuts) db

unfoldable pub cash_cut_action : Caller → ℕ → CutAction → CashDb → Result CashDb
unfolding act_on_cut
cash_cut_action c id action db = do
  x ← or_raise (first (select (is_cut c id) db.cuts)) resource_not_found
  act_on_cut c action x db
