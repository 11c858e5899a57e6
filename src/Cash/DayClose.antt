-- ===== src/Cash/DayClose.antt =====
-- `close_day` of app/aris3/routers/pos_cash.py with `_reconciliation_rollup`, after the resolution of
-- the scope and the idempotency check. The rollup sums the rows of a day by normalised action; the
-- counts beside the sums are left out.
use aris_cloud.Prelude.{
  ℕ, Bool, true, false, ◌&&◌, not, Option, none, some, List, [], ◌∷◌, ◌==◌, is_empty, select,
  if◌then◌else◌, map, suc,
}
use Prim.Native.Nat.{zero}
use aris_cloud.Prelude.Int.{ℤ, pos, ◌+ℤ◌, ◌-ℤ◌}
use aris_cloud.Prelude.Text.{Text, codes, upper, member}
use aris_cloud.Prelude.Result.{Result, ok, ◌>>◌, raise_if, validation_error, permission_denied}
use aris_cloud.Cash.Db.{
  closed, MovementType, CashSession, CashMovement, CashDayClose, CashDb, Caller, is_opened,
  is_day_closed, difference_type,
}

-- `MOVEMENT_TYPE_MAP`
abbrev pub normalize_movement_type : MovementType → MovementType
normalize_movement_type MovementType.open_session = MovementType.opening
normalize_movement_type MovementType.sale = MovementType.sale_cash_in
normalize_movement_type MovementType.close_session = MovementType.close_adjustment
normalize_movement_type a = a

-- The keys of the totals that the rollup reads.
pub data Total : Type 0 where
  opening cash_in cash_out sale_cash_in cash_out_refund : Total

abbrev pub counts_as : Total → MovementType → Bool
counts_as Total.opening MovementType.opening = true
counts_as Total.cash_in MovementType.cash_in = true
counts_as Total.cash_out MovementType.cash_out = true
counts_as Total.sale_cash_in MovementType.sale_cash_in = true
counts_as Total.cash_out_refund MovementType.cash_out_refund = true
counts_as _ _ = false

abbrev pub is_on_day : ℕ → ℕ → ℕ → CashMovement → Bool
is_on_day t s d m = m.tenant_id == t && m.store_id == s && m.business_date == d

-- What SQL's SUM over the amounts of a group gives, read back by Decimal(str(...)). The column is a
-- float, so that 0.10 and 0.20 may make 0.30000000000000004: a total is an integer in a unit of which a
-- cent has `cent`, and `total` is the database's.
pub record Sums : Type 0 where
  pub cent : ℕ
  pub total : List ℤ → ℤ

-- The equality of the texts of the actions that the rollup reads.
abbrev pub is_action : MovementType → MovementType → Bool
is_action MovementType.open_session MovementType.open_session = true
is_action MovementType.opening MovementType.opening = true
is_action MovementType.cash_in MovementType.cash_in = true
is_action MovementType.cash_out MovementType.cash_out = true
is_action MovementType.sale MovementType.sale = true
is_action MovementType.sale_cash_in MovementType.sale_cash_in = true
is_action MovementType.cash_out_refund MovementType.cash_out_refund = true
is_action _ _ = false

abbrev pub movement_types : List MovementType
movement_types =
    MovementType.open_session ∷ MovementType.opening ∷ MovementType.cash_in ∷ MovementType.cash_out
    ∷ MovementType.sale ∷ MovementType.sale_cash_in ∷ MovementType.cash_out_refund ∷ []

-- The rows of an action are one group, if there are any.
abbrev pub sum_group : Sums → List ℤ → ℤ
sum_group sums [] = pos 0
sum_group sums (x ∷ xs) = sums.total (x ∷ xs)

abbrev pub group_amounts : MovementType → List CashMovement → List ℤ
group_amounts a rows = map (λ m. m.amount) (select (λ m. is_action a m.action) rows)

-- The groups whose normalised action is the key, added up.
unfoldable pub total_of : Sums → Total → List CashMovement → List MovementType → ℤ
total_of sums key rows [] = pos 0
total_of sums key rows (a ∷ actions) =
    let rest = total_of sums key rows actions in
    if counts_as key (normalize_movement_type a)
    then sum_group sums (group_amounts a rows) +ℤ rest
    else rest

pub record Rollup : Type 0 where
  pub opening_amount : ℤ
  pub cash_in : ℤ
  pub cash_out : ℤ
  pub net_cash_movement : ℤ
  pub net_cash_sales : ℤ
  pub cash_refunds : ℤ
  pub expected_cash : ℤ

unfoldable pub rollup_rows : Sums → List CashMovement → Rollup
unfolding total_of
rollup_rows sums rows =
    let opening_amount = total_of sums Total.opening rows movement_types in
    let cash_in = total_of sums Total.cash_in rows movement_types in
    let cash_out = total_of sums Total.cash_out rows movement_types in
    let net_cash_sales = total_of sums Total.sale_cash_in rows movement_types in
    let cash_refunds = total_of sums Total.cash_out_refund rows movement_types in
    record {
      opening_amount = opening_amount;
      cash_in = cash_in;
      cash_out = cash_out;
      net_cash_movement = cash_in -ℤ cash_out;
      net_cash_sales = net_cash_sales;
      cash_refunds = cash_refunds;
      expected_cash = opening_amount +ℤ cash_in -ℤ cash_out +ℤ net_cash_sales -ℤ cash_refunds;
    }

unfoldable pub reconciliation_rollup : Sums → CashDb → ℕ → ℕ → ℕ → Rollup
unfolding rollup_rows
reconciliation_rollup sums db t s d = rollup_rows sums (select (is_on_day t s d) db.movements)

pub record DayClosePayload : Type 0 where
  pub business_date : ℕ
  pub force_if_open_sessions : Bool
  pub counted_cash : Option ℤ
  pub has_reason : Bool

abbrev pub force_close_roles : List Text
force_close_roles =
    codes "MANAGER" ∷ codes "ADMIN" ∷ codes "SUPERADMIN" ∷ codes "PLATFORM_ADMIN" ∷ []

unfoldable pub may_force_close : Text → Bool
unfolding upper member
may_force_close role = member (upper role) force_close_roles

-- The sessions that stand open on the date.
abbrev pub is_open_on : ℕ → ℕ → ℕ → CashSession → Bool
is_open_on t s d row =
    row.tenant_id == t && row.store_id == s && row.business_date == d && is_opened row.status

-- The loop over the open sessions, on their rows.
unfoldable pub close_open_sessions : ℕ → ℕ → ℕ → ℕ → List CashSession → List CashSession
close_open_sessions t s d now [] = []
close_open_sessions t s d now (row ∷ rows) =
    let rest = close_open_sessions t s d now rows in
    if is_open_on t s d row
    then record row { status = closed; closed_at = some now } ∷ rest
    else row ∷ rest

abbrev pub day_close_movement : Caller → ℕ → CashMovement
day_close_movement c date = record {
  tenant_id = c.tenant_id;
  store_id = c.store_id;
  cash_session_id = none;
  cashier_user_id = c.user_id;
  actor_user_id = c.user_id;
  business_date = date;
  sale_id = none;
  action = MovementType.day_close;
  amount = pos 0;
  expected_balance_before = none;
  expected_balance_after = none;
  occurred_at = c.now;
}

-- An amount in a unit of which a cent has k.
unfoldable pub in_unit : ℕ → ℤ → ℤ
in_unit zero a = pos 0
in_unit (suc k) a = a +ℤ in_unit k a

-- The counted cash less what is expected, in the unit of the totals.
abbrev pub cash_difference : Sums → Option ℤ → ℤ → Option ℤ
cash_difference sums none expected_cash = none
cash_difference sums (some counted_cash) expected_cash =
    some (in_unit sums.cent counted_cash -ℤ expected_cash)

abbrev pub day_close_row : Sums → Caller → DayClosePayload → Rollup → CashDayClose
day_close_row sums c payload rollup = record {
  tenant_id = c.tenant_id;
  store_id = c.store_id;
  business_date = payload.business_date;
  force_close = payload.force_if_open_sessions;
  expected_cash = rollup.expected_cash;
  counted_cash = payload.counted_cash;
  difference_amount = cash_difference sums payload.counted_cash rollup.expected_cash;
  difference_type =
      difference_type (cash_difference sums payload.counted_cash rollup.expected_cash);
  net_cash_sales = rollup.net_cash_sales;
  cash_refunds = rollup.cash_refunds;
  net_cash_movement = rollup.net_cash_movement;
  closed_by_user_id = c.user_id;
  closed_at = c.now;
}

-- The guards on sessions that stand open.
unfoldable pub check_open_sessions : Text → DayClosePayload → Bool → Result (Unit {0})
check_open_sessions role payload false = ok tt
check_open_sessions role payload true = do
  raise_if (not payload.force_if_open_sessions) validation_error
  raise_if (not (may_force_close role)) permission_denied
  raise_if (not payload.has_reason) validation_error

-- The tables when the guards have passed.
abbrev pub closed_day : Sums → Caller → DayClosePayload → CashDb → CashDb
closed_day sums c payload db = record db {
  sessions = close_open_sessions c.tenant_id c.store_id payload.business_date c.now db.sessions;
  movements = day_close_movement c payload.business_date ∷ db.movements;
  day_closes =
      day_close_row sums c payload
        (reconciliation_rollup sums db c.tenant_id c.store_id payload.business_date)
      ∷ db.day_closes;
}

unfoldable pub close_day : Sums → Caller → Text → DayClosePayload → CashDb → Result CashDb
unfolding check_open_sessions
close_day sums c role payload db = do
  raise_if (is_day_closed db.day_closes c.tenant_id c.store_id payload.business_date)
      validation_error
  check_open_sessions role payload (
      not (is_empty (select (is_open_on c.tenant_id c.store_id payload.business_date) db.sessions)))
  ok (closed_day sums c payload db)
