-- ===== src/Cash/Db.antt =====
-- The rows of pos_cash_sessions, pos_cash_movements, pos_cash_day_closes and pos_cash_cuts (app/aris3/db/models.py),
-- and the queries that app/aris3/routers/pos_cash.py shares. Amounts are in cents. Texts and ids that
-- are only copied (time zones, reasons, trace and transaction ids) are left out.
use aris_cloud.Prelude.{
  ℕ, Bool, true, false, not, ◌&&◌, ◌||◌, Option, none, some, List, [], ◌∷◌, ◌==◌, ltb, is_some, any,
  select, if◌then◌else◌,
}
use aris_cloud.Prelude.Int.{ℤ, pos, leb_ℤ, ltb_ℤ}
use aris_cloud.Prelude.Result.{Result, ok, err, raise_if, validation_error}

pub data SessionStatus : Type 0 where
  opened closed : SessionStatus

-- The texts of `PosCashMovement.action`; `voucher` stands for those of voucher issues and refunds
-- that move no cash.
pub data MovementType : Type 0 where
  open_session opening cash_in cash_out sale sale_cash_in cash_out_refund : MovementType
  close_session close_adjustment day_close : MovementType
  voucher : ℕ → MovementType

pub record CashSession : Type 0 where
  pub id : ℕ
  pub tenant_id : ℕ
  pub store_id : ℕ
  pub cashier_user_id : ℕ
  pub status : SessionStatus
  pub business_date : ℕ
  pub opening_amount : ℤ
  pub expected_cash : ℤ
  pub counted_cash : Option ℤ
  pub difference : Option ℤ
  pub opened_at : ℕ
  pub closed_at : Option ℕ
  pub created_at : ℕ

pub record CashMovement : Type 0 where
  pub tenant_id : ℕ
  pub store_id : ℕ
  pub cash_session_id : Option ℕ
  pub cashier_user_id : ℕ
  pub actor_user_id : ℕ
  pub business_date : ℕ
  pub sale_id : Option ℕ
  pub action : MovementType
  pub amount : ℤ
  pub expected_balance_before : Option ℤ
  pub expected_balance_after : Option ℤ
  pub occurred_at : ℕ

pub data DifferenceType : Type 0 where
  over short even : DifferenceType

-- A row's status is always "CLOSED". What comes from the rollup is in the unit of its sums (`Sums`).
pub record CashDayClose : Type 0 where
  pub tenant_id : ℕ
  pub store_id : ℕ
  pub business_date : ℕ
  pub force_close : Bool
  pub expected_cash : ℤ
  pub counted_cash : Option ℤ
  pub difference_amount : Option ℤ
  pub difference_type : Option DifferenceType
  pub net_cash_sales : ℤ
  pub cash_refunds : ℤ
  pub net_cash_movement : ℤ
  pub closed_by_user_id : ℕ
  pub closed_at : ℕ

pub data CutStatus : Type 0 where
  open_cut completed_cut void_cut : CutStatus

-- A row of pos_cash_cuts; the totals of its quote are left out.
pub record CashCut : Type 0 where
  pub id : ℕ
  pub tenant_id : ℕ
  pub store_id : ℕ
  pub cash_session_id : ℕ
  pub cut_number : ℕ
  pub from_at : ℕ
  pub to_at : ℕ
  pub counted_cash : Option ℤ
  pub deposit_removed_amount : Option ℤ
  pub status : CutStatus
  pub completed_at : Option ℕ

pub record CashDb : Type 0 where
  pub sessions : List CashSession
  pub movements : List CashMovement
  pub day_closes : List CashDayClose
  pub cuts : List CashCut

-- What a handler knows when its guards have passed: the resolved scope, the current user, the time,
-- and the id that `uuid4` gives a new row.
pub record Caller : Type 0 where
  pub tenant_id : ℕ
  pub store_id : ℕ
  pub user_id : ℕ
  pub now : ℕ
  pub new_id : ℕ

abbrev pub is_opened : SessionStatus → Bool
is_opened opened = true
is_opened closed = false

-- Some day close stands for the tenant, the store and the date.
unfoldable pub is_day_closed : List CashDayClose → ℕ → ℕ → ℕ → Bool
is_day_closed closes t s d =
    any (λ c. c.tenant_id == t && c.store_id == s && c.business_date == d) closes

unfoldable pub ensure_not_closed : CashDb → ℕ → ℕ → ℕ → Result (Unit {0})
ensure_not_closed db t s d = raise_if (is_day_closed db.day_closes t s d) validation_error

unfoldable pub ensure_positive_amount : Option ℤ → Result ℤ
ensure_positive_amount none = err validation_error
ensure_positive_amount (some value) = if leb_ℤ value (pos 0) then err validation_error else ok value

unfoldable pub ensure_non_negative_balance : ℤ → Result (Unit {0})
ensure_non_negative_balance next_balance = raise_if (ltb_ℤ next_balance (pos 0)) validation_error

unfoldable pub difference_type : Option ℤ → Option DifferenceType
difference_type none = none
difference_type (some d) =
    if ltb_ℤ (pos 0) d then some over else if ltb_ℤ d (pos 0) then some short else some even

abbrev newer : CashSession → CashSession → Bool
newer a b =
    ltb b.opened_at a.opened_at || (a.opened_at == b.opened_at && ltb b.created_at a.created_at)

-- `order_by(opened_at.desc(), created_at.desc())` and `.first()`.
unfoldable pub latest : List CashSession → Option CashSession
latest [] = none
latest (s ∷ ss) =
    let rest = latest ss in
    elim rest [ none ↦ some s | some r ↦ if newer r s then some r else some s ]

-- The rows that `_open_session_query` may return.
abbrev pub is_open_for : CashDb → ℕ → ℕ → ℕ → CashSession → Bool
is_open_for db t s cashier row =
    row.tenant_id == t
    && row.store_id == s
    && row.cashier_user_id == cashier
    && is_opened row.status
    && not (is_some row.closed_at)
    && not (is_day_closed db.day_closes row.tenant_id row.store_id row.business_date)

unfoldable pub open_session_query : CashDb → ℕ → ℕ → ℕ → Option CashSession
unfolding latest
open_session_query db t s cashier = latest (select (is_open_for db t s cashier) db.sessions)

-- The changes of a loaded session, written to its row.
unfoldable pub put : CashSession → List CashSession → List CashSession
put r [] = []
put r (s ∷ ss) = let rest = put r ss in if s.id == r.id then r ∷ ss else s ∷ rest
