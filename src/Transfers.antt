-- ===== src/Transfers.antt =====
-- Transfers of stock between two stores of a tenant: the rows of app/aris3/db/models.py that
-- app/aris3/routers/transfers.py reads and writes, the requests of app/aris3/schemas/transfers.py,
-- and the scope of a caller. The prices and the image of an item are only carried along, and so are
-- the places, the snapshot and the user of a movement: they are left out.
pub mod Stock
pub mod Totals
pub mod Lines
pub mod Drafts
pub mod Actions
pub mod Sums
pub mod Status
pub mod Tracks
pub mod Kept
pub mod Live
pub mod Duties
pub mod Conserved
pub mod Settled
pub mod Rules
pub mod Within
pub mod Invariant
pub mod Closed
use aris_cloud.Prelude.{
  ℕ, suc, ◌+◌, ◌-◌, ◌≤◌, ◌<◌, ◌↔◌, ◌∙◌, ap, inr, inl, sym, Bool-cases, refl, ◌≡◌, ◌≢◌, Bool, true,
  false, not, ◌&&◌, ◌||◌, List, [], ◌∷◌, ◌++◌, map, if◌then◌else◌, is_empty, arith, All, any,
  select, first, length, ◌⊎◌, Option, none, some, ◌==◌, ltb, leb, max, is_some, is_just, or_else,
  first_some, ==_iff, Option-cases,
}
use aris_cloud.Prelude.Int.{
  ℤ, pos, negsuc, ◌+ℤ◌, ◌-ℤ◌, ◌≤ℤ◌, leb_ℤ, ltb_ℤ, int_laws, +ℤ_parts, -ℤ_parts, eq_of_parts,
}
use aris_cloud.Prelude.Result.{
  Result, ok, err, ◌>>=◌, ◌>>◌, raise_if, or_raise, Ensures, Ensures-bind, Ensures-ok, Ensures-if,
  Ensures-raise_if, AppError, validation_error, business_conflict, resource_not_found,
  permission_denied, idempotency_key_required, idempotency_request_in_progress,
  idempotency_key_reused_with_different_payload,
}
use aris_cloud.Prelude.Result.{
  tenant_scope_required, cross_tenant_access_denied, store_scope_mismatch,
}
use aris_cloud.Prelude.Text.{Text, codes, upper, member}
use aris_cloud.Scope.{TokenData, Store}
use aris_cloud.Access.{AccessDb, RequestContext, evaluate_permission}

pub record StockItem : Type 0 where
  pub id : ℕ
  pub tenant_id : ℕ
  pub store_id : Option ℕ
  pub sku : Option Text
  pub description : Option Text
  pub var1_value : Option Text
  pub var2_value : Option Text
  pub epc : Option Text
  pub location_code : Option Text
  pub pool : Option Text
  pub status : Option Text
  pub location_is_vendible : Bool

pub data TransferStatus : Type 0 where
  draft dispatched partial_received received canceled : TransferStatus

pub record Transfer : Type 0 where
  pub id : ℕ
  pub tenant_id : ℕ
  pub origin_store_id : ℕ
  pub destination_store_id : ℕ
  pub status : TransferStatus
  pub received_at : Option ℕ

pub data LineType : Type 0 where
  epc_line sku_line : LineType

pub record TransferLineSnapshot : Type 0 where
  pub sku : Option Text
  pub description : Option Text
  pub var1_value : Option Text
  pub var2_value : Option Text
  pub epc : Option Text
  pub location_code : Option Text
  pub pool : Option Text
  pub status : Option Text
  pub location_is_vendible : Bool

-- The columns that repeat the snapshot stand in one record.
pub record TransferLine : Type 0 where
  pub id : ℕ
  pub transfer_id : ℕ
  pub tenant_id : ℕ
  pub line_type : LineType
  pub qty : ℕ
  pub snapshot : TransferLineSnapshot

pub data MovementAction : Type 0 where
  dispatch receive shortage_reported : MovementAction
  shortage_resolved_found_and_resend shortage_resolved_lost_in_route : MovementAction

pub record TransferMovement : Type 0 where
  pub tenant_id : ℕ
  pub transfer_id : ℕ
  pub transfer_line_id : ℕ
  pub action : MovementAction
  pub qty : ℕ

-- The tables. The stock stands in the order of `created_at`.
pub record TransferDb : Type 0 where
  pub stores : List Store
  pub stock : List StockItem
  pub transfers : List Transfer
  pub lines : List TransferLine
  pub movements : List TransferMovement

-- Who asks, and what comes from outside: the clock, the ids that `uuid4` draws for a transfer and
-- for its lines, and the text of an id. A quantity below 0 is refused as 0 is, so quantities are ℕ.
pub record Caller : Type 0 where
  pub access : AccessDb
  pub context : RequestContext
  pub token : TokenData
  pub now : ℕ
  pub new_id : ℕ
  pub new_line_id : ℕ → ℕ
  pub id_text : ℕ → Text

pub record TransferLineCreate : Type 0 where
  pub line_type : LineType
  pub qty : ℕ
  pub snapshot : TransferLineSnapshot

pub record TransferReceiveLine : Type 0 where
  pub line_id : ℕ
  pub qty : ℕ
  pub location_code : Option Text
  pub pool : Option Text
  pub location_is_vendible : Option Bool

pub record TransferShortageLine : Type 0 where
  pub line_id : ℕ
  pub qty : ℕ

pub data ResolutionType : Type 0 where
  found_and_resend lost_in_route : ResolutionType

pub record TransferShortageResolution : Type 0 where
  pub resolution : ResolutionType
  pub lines : List TransferShortageLine

pub data TransferAction : Type 0 where
  dispatch_action : TransferAction
  receive_action : List TransferReceiveLine → TransferAction
  report_shortages_action : List TransferShortageLine → TransferAction
  resolve_shortages_action : Option TransferShortageResolution → TransferAction
  cancel_action : TransferAction
  other_action : TransferAction

abbrev pub in_transit_code : Text
in_transit_code = codes "IN_TRANSIT"

-- `_DEFAULT_RECEIVE_POOL`
abbrev pub default_receive_pool : Text
default_receive_pool = codes "SALE"

-- `TRANSFER_SKU_ALLOWED_STATUSES`
abbrev pub sku_allowed_statuses : List Text
sku_allowed_statuses = codes "PENDING" ∷ codes "RFID" ∷ []

abbrev pub broad_access_roles : List Text
broad_access_roles = codes "SUPERADMIN" ∷ codes "PLATFORM_ADMIN" ∷ codes "ADMIN" ∷ []

unfoldable pub has_broad_transfer_scope : TokenData → Bool
unfolding upper member
has_broad_transfer_scope token = member (upper token.role) broad_access_roles

-- `_enforce_origin_store_scope` and `_enforce_destination_store_scope`
unfoldable pub enforce_transfer_store : TokenData → ℕ → Result (Unit {0})
unfolding has_broad_transfer_scope
enforce_transfer_store token store =
    raise_if (not (has_broad_transfer_scope token) && not (is_just token.store_id store))
      store_scope_mismatch

unfoldable pub is_visible_transfer : TokenData → Transfer → Bool
unfolding has_broad_transfer_scope
is_visible_transfer token transfer =
    has_broad_transfer_scope token
    || is_just token.store_id transfer.origin_store_id
    || is_just token.store_id transfer.destination_store_id

-- `_resolve_tenant_id`
unfoldable pub resolve_transfer_tenant : TokenData → Option ℕ → Result ℕ
resolve_transfer_tenant token tenant_id = do
  tenant ← or_raise token.tenant_id tenant_scope_required
  raise_if (is_some tenant_id && not (is_just tenant_id tenant)) cross_tenant_access_denied
  ok tenant

-- `_require_action_permission`
unfoldable pub require_action_permission : Caller → Text → Result (Unit {0})
unfolding evaluate_permission
require_action_permission c permission_key =
    raise_if
      (not (evaluate_permission c.access permission_key c.context (some c.token)).allowed
        && not
            (evaluate_permission c.access (codes "TRANSFER_MANAGE") c.context
              (some c.token)).allowed)
      permission_denied

unfoldable pub ensure_store_tenant : ℕ → ℕ → List Store → Result (Unit {0})
ensure_store_tenant tenant store stores =
    raise_if (not (any (λ s. s.id == store && s.tenant_id == tenant) stores)) validation_error

unfoldable pub find_transfer : ℕ → ℕ → List Transfer → Option Transfer
find_transfer tenant id transfers =
    first (select (λ t. t.id == id && t.tenant_id == tenant) transfers)

-- The row of the transfer takes its new values.
unfoldable pub put_transfer : Transfer → List Transfer → List Transfer
put_transfer t = map (λ u. if u.id == t.id then t else u)

-- `TransferRepository.get_lines`
unfoldable pub get_lines : ℕ → List TransferLine → List TransferLine
get_lines transfer_id = select (λ l. l.transfer_id == transfer_id)

unfoldable pub is_active : TransferStatus → Bool
is_active received = false
is_active canceled = false
is_active _ = true

unfoldable pub is_draft : TransferStatus → Bool
is_draft draft = true
is_draft _ = false

-- `status in {"DISPATCHED", "PARTIAL_RECEIVED"}`
unfoldable pub is_in_transit : TransferStatus → Bool
is_in_transit dispatched = true
is_in_transit partial_received = true
is_in_transit _ = false

unfoldable pub is_dispatched : TransferStatus → Bool
is_dispatched dispatched = true
is_dispatched _ = false

unfoldable pub is_epc : LineType → Bool
is_epc epc_line = true
is_epc sku_line = false
