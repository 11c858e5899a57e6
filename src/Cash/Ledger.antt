-- ===== src/Cash/Ledger.antt =====
-- The invariant of the cash tables: what ties sessions, movements and closed days together.
use aris_cloud.Prelude.{
  ℕ, ◌≡◌, false, Option, none, some, List, [], ◌∷◌, All, any, is_just, if◌then◌else◌,
}
use aris_cloud.Prelude.Int.{ℤ, pos, ◌+ℤ◌, ◌-ℤ◌, ◌≤ℤ◌}
use aris_cloud.Cash.Db.{
  opened, MovementType, CashSession, CashMovement, CashDayClose, CashCut, CashDb, is_day_closed,
}
use aris_cloud.Cash.Flow.{is_open_of}
use aris_cloud.Cash.Rows.{find, UniqueIds}

-- What a movement adds to the cash of its session.
unfoldable pub signed : MovementType → ℤ → ℤ
signed MovementType.open_session amount = amount
signed MovementType.opening amount = amount
signed MovementType.cash_in amount = amount
signed MovementType.sale amount = amount
signed MovementType.sale_cash_in amount = amount
signed MovementType.cash_out amount = pos 0 -ℤ amount
signed MovementType.cash_out_refund amount = pos 0 -ℤ amount
signed _ amount = pos 0

abbrev pub effect : CashMovement → ℤ
effect m = signed m.action m.amount

-- The cash that the movements of a session add up to.
unfoldable pub balance : ℕ → List CashMovement → ℤ
balance k [] = pos 0
balance k (m ∷ ms) =
    let rest = balance k ms in if is_just m.cash_session_id k then effect m +ℤ rest else rest

-- The session is of the movement's tenant, store and date.
abbrev pub IsOfDay : Option CashSession → CashMovement → Type 0
IsOfDay none m = ⊥
IsOfDay (some s) m =
    (s.tenant_id ≡ m.tenant_id) × (s.store_id ≡ m.store_id) × (s.business_date ≡ m.business_date)

-- A movement of no session moves no cash.
abbrev pub IsAttachedTo : Option ℕ → List CashSession → CashMovement → Type 0
IsAttachedTo none rows m = effect m ≡ pos 0
IsAttachedTo (some k) rows m = IsOfDay (find k rows) m

abbrev pub IsAttached : List CashSession → CashMovement → Type 0
IsAttached rows m = IsAttachedTo m.cash_session_id rows m

-- The session of a cut is of the cut's tenant and store.
abbrev pub IsOfStore : Option CashSession → CashCut → Type 0
IsOfStore none x = ⊥
IsOfStore (some s) x = (s.tenant_id ≡ x.tenant_id) × (s.store_id ≡ x.store_id)

abbrev pub IsCutOf : List CashSession → CashCut → Type 0
IsCutOf rows x = IsOfStore (find x.cash_session_id rows) x

-- An open session has no closing time, and its day is not closed.
abbrev pub IsUnlocked : List CashDayClose → CashSession → Type 0
IsUnlocked closes s =
    s.status ≡ opened
    → (is_day_closed closes s.tenant_id s.store_id s.business_date ≡ false) × (s.closed_at ≡ none)

-- A cashier has one open session in a store at most.
abbrev pub SingleOpen : List CashSession → Type 0
SingleOpen [] = Unit
SingleOpen (s ∷ rows) =
    (s.status ≡ opened → any (is_open_of s.tenant_id s.store_id s.cashier_user_id) rows ≡ false)
    × SingleOpen rows

abbrev pub IsBalanced : List CashMovement → CashSession → Type 0
IsBalanced ms s = s.expected_cash ≡ balance s.id ms

abbrev pub IsNonNegative : CashSession → Type 0
IsNonNegative s = pos 0 ≤ℤ s.expected_cash

pub record IsLedger (db : CashDb) : Type 0 where
  pub unique : UniqueIds db.sessions
  pub balanced : All (IsBalanced db.movements) db.sessions
  pub non_negative : All IsNonNegative db.sessions
  pub attached : All (IsAttached db.sessions) db.movements
  pub unlocked : All (IsUnlocked db.day_closes) db.sessions
  pub single : SingleOpen db.sessions
  pub cut_from : All (IsCutOf db.sessions) db.cuts
