-- ===== src/Transfers/Stock.antt =====
-- The stock rows of one request. The sessions of app/aris3/db/session.py do not flush by themselves:
-- a select compares with the stored row, and a write shows in the object alone until the commit. So
-- each row stands with its stored and its live state. Also the filters of the selects in
-- app/aris3/routers/transfers.py and in app/aris3/services/stock_rules.py.
use aris_cloud.Prelude.{
  ℕ, ◌-◌, Bool, true, false, not, ◌&&◌, ◌||◌, List, [], ◌∷◌, map, if◌then◌else◌, select, length,
  Option, none, some, ◌==◌, ltb, is_some, is_just,
}
use aris_cloud.Prelude.Result.{Result, ok, ◌>>◌, raise_if, AppError}
use aris_cloud.Prelude.Text.{Text, text_eq, member}
use aris_cloud.Transfers.{StockItem, TransferLineSnapshot, in_transit_code, sku_allowed_statuses}

pub record Tracked : Type 0 where
  pub stored : StockItem
  pub live : StockItem
  pub deleted : Bool

unfoldable pub begin : List StockItem → List Tracked
begin = map (λ x. record { stored = x; live = x; deleted = false })

unfoldable pub commit : List Tracked → List StockItem
commit [] = []
commit (r ∷ rs) = let rest = commit rs in if r.deleted then rest else r.live ∷ rest

-- `select(StockItem).where(p)`
unfoldable pub matching : (StockItem → Bool) → List Tracked → List Tracked
matching p = select (λ r. p r.stored)

-- What is done to the first n rows of the select.
unfoldable pub change_first :
    (Tracked → Tracked) → (StockItem → Bool) → ℕ → List Tracked → List Tracked
change_first f p n [] = []
change_first f p n (r ∷ rs) =
    let hit = p r.stored && ltb 0 n in
    (if hit then f r else r) ∷ change_first f p (if hit then n - 1 else n) rs

-- `.limit(n)`, the test that n rows came, and the loop over them; with n = 1 it is `.first()`.
unfoldable pub change_rows :
    (Tracked → Tracked) → AppError → (StockItem → Bool) → ℕ → List Tracked → Result (List Tracked)
unfolding matching change_first
change_rows f e p n rows = do
  raise_if (ltb (length (matching p rows)) n) e
  ok (change_first f p n rows)

abbrev pub write : (StockItem → StockItem) → Tracked → Tracked
write f r = record r { live = f r.live }

-- `db.delete(row)`
abbrev pub delete : Tracked → Tracked
delete r = record r { deleted = true }

-- `column == value`, where `None` asks for NULL.
unfoldable pub same_text : Option Text → Option Text → Bool
unfolding text_eq
same_text none none = true
same_text (some s) (some t) = text_eq s t
same_text _ _ = false

unfoldable pub allowed_status : Option Text → Bool
unfolding member
allowed_status none = false
allowed_status (some s) = member s sku_allowed_statuses

unfoldable pub lies_in_transit : StockItem → Bool
unfolding same_text
lies_in_transit x =
    same_text x.location_code (some in_transit_code) && same_text x.pool (some in_transit_code)

-- The units of a SKU line on their way; `at_store` is the condition on the store.
unfoldable pub in_transit_sku : ℕ → (Option ℕ → Bool) → TransferLineSnapshot → StockItem → Bool
unfolding same_text allowed_status lies_in_transit
in_transit_sku tenant at_store line x =
    x.tenant_id == tenant
    && at_store x.store_id
    && not (is_some x.epc)
    && same_text x.sku line.sku
    && same_text x.description line.description
    && same_text x.var1_value line.var1_value
    && same_text x.var2_value line.var2_value
    && lies_in_transit x
    && allowed_status x.status

unfoldable pub in_transit_epc : ℕ → (Option ℕ → Bool) → Option Text → StockItem → Bool
unfolding same_text lies_in_transit
in_transit_epc tenant at_store epc x =
    x.tenant_id == tenant && same_text x.epc epc && at_store x.store_id && lies_in_transit x

abbrev pub at : ℕ → Option ℕ → Bool
at store s = is_just s store

abbrev pub at_or_nowhere : ℕ → Option ℕ → Bool
at_or_nowhere store s = is_just s store || not (is_some s)

abbrev pub anywhere : Option ℕ → Bool
anywhere s = true

-- A clause that is left out when the value is `None`.
unfoldable pub matches_if_given : Option Text → Option Text → Bool
unfolding same_text
matches_if_given none column = true
matches_if_given (some t) column = same_text column (some t)

unfoldable pub transfer_sku_filters :
    ℕ → ℕ → Option Text → Option Text → Option Text → StockItem → Bool
unfolding same_text allowed_status matches_if_given
transfer_sku_filters tenant origin sku location_code pool x =
    x.tenant_id == tenant
    && is_just x.store_id origin
    && not (is_some x.epc)
    && allowed_status x.status
    && same_text x.sku sku
    && matches_if_given location_code x.location_code
    && matches_if_given pool x.pool
