-- ===== src/Advances/Handlers.antt =====
-- The handlers that write advances: `create_advance`, `mutate_advance`, `sweep_endpoint`, and the
-- reads that expire an advance, `get_advance` and `lookup_advance`, of
-- app/aris3/routers/pos_advances.py, and the advance of a checkout in app/aris3/routers/pos_sales.py.
use aris_cloud.Prelude.{
  ℕ, ◌||◌, is_just, ◌+◌, Bool, false, not, ◌&&◌, List, ◌∷◌, ◌++◌, if◌then◌else◌, any, select, first,
  Option, none, some, ◌==◌,
}
use aris_cloud.Prelude.Int.{ℤ, pos, leb_ℤ, ltb_ℤ}
use aris_cloud.Prelude.Result.{
  Result, ok, err, ◌>>=◌, ◌>>◌, raise_if, or_raise, validation_error, business_conflict,
  resource_not_found,
}
use aris_cloud.Scope.{TokenData, Store, enforce_tenant_scope, enforce_store_scope}
use aris_cloud.Cash.Db.{CashDb, Caller}
use aris_cloud.Cash.Flow.{issue_voucher_cash, refund_voucher_cash, record_non_cash_voucher_movement}
use aris_cloud.Advances.{
  AdvanceStatus, VoucherType, advance, gift_card, PosAdvance, EventAction, PosAdvanceEvent,
  advance_event, is_active, is_due, is_terminal, expire_advance_if_needed, sweep_expired_advances,
  find_advance, put_advance, last_number,
}

-- A row of pos_sales, as far as a voucher names it.
pub record SaleRef : Type 0 where
  pub id : ℕ
  pub tenant_id : ℕ
  pub store_id : ℕ

pub record AdvanceDb : Type 0 where
  pub advances : List PosAdvance
  pub events : List PosAdvanceEvent
  pub sales : List SaleRef
  pub cash : CashDb

-- The actions of the non-cash movements: `VOUCHER_ISSUANCE_REASON` and `VOUCHER_REFUND_REASON`.
abbrev pub issuance_reason : VoucherType → ℕ
issuance_reason advance = 0
issuance_reason gift_card = 1

abbrev pub refund_reason : VoucherType → ℕ
refund_reason advance = 2
refund_reason gift_card = 3

-- Sixty days, in seconds.
abbrev pub lifetime : ℕ
lifetime = 5184000

-- The barcode is a text of the store and the number, so the number stands for it.
abbrev pub issued_advance : Caller → ℤ → VoucherType → ℕ → PosAdvance
issued_advance c amount voucher_type number = record {
  id = c.new_id;
  tenant_id = c.tenant_id;
  store_id = c.store_id;
  advance_number = number;
  barcode_value = number;
  voucher_type = voucher_type;
  issued_amount = amount;
  issued_at = c.now;
  expires_at = c.now + lifetime;
  status = AdvanceStatus.active;
  consumed_sale_id = none;
  refunded_at = none;
  expired_at = none;
}

-- `create_advance`, after the resolution of the scope; `in_cash` is `payment_method == "CASH"`.
unfoldable pub create_advance : Caller → ℕ → ℤ → Bool → VoucherType → AdvanceDb → Result AdvanceDb
unfolding last_number issue_voucher_cash record_non_cash_voucher_movement
create_advance c today amount in_cash voucher_type db = do
  raise_if (leb_ℤ amount (pos 0)) validation_error
  let row =
      issued_advance c amount voucher_type (last_number c.tenant_id c.store_id db.advances + 1)
  cash ←
      if in_cash
      then issue_voucher_cash c row.id amount db.cash
      else ok (
          record_non_cash_voucher_movement c today (issuance_reason voucher_type) row.id amount
            db.cash)
  ok (record db {
    advances = row ∷ db.advances;
    events = advance_event row EventAction.issued c.now ∷ db.events;
    cash = cash;
  })

-- The payload of `mutate_advance`. A missing refund method is `none`, CASH is `some true`.
pub data AdvanceAction : Type 0 where
  refund : Option Bool → AdvanceAction
  consume : Option ℤ → Option ℕ → AdvanceAction
  expire_now : AdvanceAction

abbrev is_sale_of : ℕ → PosAdvance → SaleRef → Bool
is_sale_of sale row r = r.id == sale && r.tenant_id == row.tenant_id && r.store_id == row.store_id

unfoldable pub resolve_sale_id_for_consume :
    List SaleRef → PosAdvance → Option ℕ → Result (Option ℕ)
resolve_sale_id_for_consume sales row none = ok none
resolve_sale_id_for_consume sales row (some sale) =
    if any (is_sale_of sale row) sales then ok (some sale) else err resource_not_found

-- The row's new state with its event.
abbrev pub write_advance : ℕ → PosAdvance → EventAction → CashDb → AdvanceDb → AdvanceDb
write_advance now row action cash db = record db {
  advances = put_advance row db.advances;
  events = advance_event row action now ∷ db.events;
  cash = cash;
}

unfoldable pub act_on_advance :
    Caller → ℕ → AdvanceAction → PosAdvance → AdvanceDb → Result AdvanceDb
unfolding refund_voucher_cash record_non_cash_voucher_movement resolve_sale_id_for_consume
act_on_advance c today (refund none) row db = err validation_error
act_on_advance c today (refund (some in_cash)) row db = do
  cash ←
      if in_cash
      then refund_voucher_cash c row.id row.issued_amount db.cash
      else ok (
          record_non_cash_voucher_movement c today (refund_reason row.voucher_type) row.id
            row.issued_amount db.cash)
  ok (
      write_advance c.now (record row { status = AdvanceStatus.refunded; refunded_at = some c.now })
        EventAction.refunded cash db)
act_on_advance c today (consume none sale_id) row db = err validation_error
act_on_advance c today (consume (some sale_total) sale_id) row db = do
  raise_if (ltb_ℤ sale_total row.issued_amount) validation_error
  sale ← resolve_sale_id_for_consume db.sales row sale_id
  ok (
      write_advance c.now (record row { status = AdvanceStatus.consumed; consumed_sale_id = sale })
        EventAction.consumed db.cash db)
act_on_advance c today expire_now row db = ok (
    write_advance c.now (record row { status = AdvanceStatus.expired; expired_at = some c.now })
      EventAction.expired db.cash db)

-- The caller's cash is that of the row's tenant and store.
abbrev pub caller_at : Caller → PosAdvance → Caller
caller_at c row = record c { tenant_id = row.tenant_id; store_id = row.store_id }

unfoldable pub mutate_advance :
    TokenData → List Store → Caller → ℕ → ℕ → AdvanceAction → AdvanceDb → Result AdvanceDb
unfolding find_advance expire_advance_if_needed act_on_advance
mutate_advance token stores c today id action db = do
  found ← or_raise (find_advance id db.advances) resource_not_found
  enforce_tenant_scope token (some found.tenant_id) false
  enforce_store_scope token (some found.store_id) stores false
  let (row, events) = expire_advance_if_needed c.now found
  raise_if (is_terminal row.status) business_conflict
  act_on_advance (caller_at c row) today action row (record db { events = events ++ db.events })

-- The lazy expiry of a row that was found, written to the tables.
unfoldable pub expire_stored : ℕ → PosAdvance → AdvanceDb → AdvanceDb
unfolding expire_advance_if_needed put_advance
expire_stored now found db =
    let (row, events) = expire_advance_if_needed now found in
    if is_due now found
    then record db { advances = put_advance row db.advances; events = events ++ db.events }
    else db

unfoldable pub get_advance : TokenData → List Store → Caller → ℕ → AdvanceDb → Result AdvanceDb
unfolding find_advance expire_stored
get_advance token stores c id db = do
  found ← or_raise (find_advance id db.advances) resource_not_found
  enforce_tenant_scope token (some found.tenant_id) false
  enforce_store_scope token (some found.store_id) stores false
  ok (expire_stored c.now found db)

-- The code of a lookup: a barcode, and the number that it spells, if it has digits only.
abbrev pub has_code : ℕ → Option ℕ → PosAdvance → Bool
has_code barcode number row = row.barcode_value == barcode || is_just number row.advance_number

-- The answer of a lookup, for the row that was found.
unfoldable pub validate_advance :
    TokenData → List Store → Caller → Option PosAdvance → AdvanceDb → Result AdvanceDb
unfolding expire_stored
validate_advance token stores c none db = ok db
validate_advance token stores c (some found) db = do
  enforce_tenant_scope token (some found.tenant_id) false
  enforce_store_scope token (some found.store_id) stores false
  let after = expire_stored c.now found db
  ok (record after { events = advance_event found EventAction.validated c.now ∷ after.events })

unfoldable pub lookup_advance :
    TokenData → List Store → Caller → ℕ → Option ℕ → AdvanceDb → Result AdvanceDb
unfolding validate_advance
lookup_advance token stores c barcode number db =
    validate_advance token stores c (first (select (has_code barcode number) db.advances)) db

unfoldable pub sweep_endpoint : Caller → AdvanceDb → AdvanceDb
unfolding sweep_expired_advances
sweep_endpoint c db =
    let swept = sweep_expired_advances c.tenant_id c.store_id c.now db.advances in
    record db { advances = swept.0; events = swept.1 ++ db.events }

-- What an ADVANCE payment names.
pub data AdvanceRef : Type 0 where
  by_id by_barcode : ℕ → AdvanceRef

abbrev pub names : Caller → AdvanceRef → PosAdvance → Bool
names c (by_id id) row = row.tenant_id == c.tenant_id && row.store_id == c.store_id && row.id == id
names c (by_barcode barcode) row =
    row.tenant_id == c.tenant_id && row.store_id == c.store_id && row.barcode_value == barcode

abbrev eq_ℤ : ℤ → ℤ → Bool
eq_ℤ a b = leb_ℤ a b && leb_ℤ b a

unfoldable pub resolve_advance_for_checkout :
    Caller → AdvanceRef → ℤ → AdvanceDb → Result PosAdvance
unfolding expire_advance_if_needed
resolve_advance_for_checkout c ref amount db = do
  found ← or_raise (first (select (names c ref) db.advances)) validation_error
  let row = (expire_advance_if_needed c.now found).0
  raise_if (not (is_active row.status)) business_conflict
  raise_if (not (eq_ℤ amount row.issued_amount)) validation_error
  ok row

-- The advance of a checkout: resolved at first, consumed with the sale.
unfoldable pub checkout_advance : Caller → ℕ → AdvanceRef → ℤ → AdvanceDb → Result AdvanceDb
unfolding resolve_advance_for_checkout
checkout_advance c sale_id ref amount db = do
  row ← resolve_advance_for_checkout c ref amount db
  ok (
      write_advance c.now
        (record row { status = AdvanceStatus.consumed; consumed_sale_id = some sale_id })
        EventAction.consumed db.cash db)
