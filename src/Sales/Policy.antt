-- ===== src/Sales/Policy.antt =====
-- What the return policy of a tenant asks of a refund: `_require_manager_override` and the checks before
-- it in `sale_action` of app/aris3/routers/pos_sales.py.
use aris_cloud.Prelude.{
  ℕ, ◌+◌, Bool, true, not, ◌&&◌, ◌||◌, List, [], ◌∷◌, ◌++◌, if◌then◌else◌, is_empty, any, Option,
  none, some, ltb,
}
use aris_cloud.Prelude.Int.{pos, leb_ℤ}
use aris_cloud.Prelude.Result.{
  Result, ok, ◌>>=◌, ◌>>◌, raise_if, validation_error, permission_denied,
}
use aris_cloud.Prelude.Text.{Text, codes, member, upper}
use aris_cloud.Payments.{PosPaymentCreate, PaymentMethod}
use aris_cloud.Transfers.Lines.{truthy}
use aris_cloud.Sales.{SaleRow, ReturnPolicySettings, PosSaleActionRequest}

pub data PolicyException : Type 0 where
  receipt_required missing_checkout_time return_window_expired : PolicyException
  condition_not_accepted refund_method_not_allowed : PolicyException

abbrev raised : Bool → PolicyException → List PolicyException
raised b e = if b then e ∷ [] else []

unfoldable pub window_exceptions : ℕ → ℕ → Option ℕ → List PolicyException
window_exceptions now window none = missing_checkout_time ∷ []
window_exceptions now window (some at) = raised (ltb (at + window) now) return_window_expired

-- The exceptions of the sale and of the items.
unfoldable pub item_exceptions :
    ℕ → ReturnPolicySettings → SaleRow → PosSaleActionRequest → List PolicyException
unfolding truthy window_exceptions member
item_exceptions now policy sale payload =
    raised (policy.require_receipt && not (truthy payload.receipt_number)) receipt_required
    ++ window_exceptions now policy.return_window sale.checked_out_at
    ++ raised
        (not (is_empty policy.accepted_conditions)
          && any (λ i. not (member i.condition policy.accepted_conditions)) payload.return_items)
        condition_not_accepted

unfoldable pub method_allowed : ReturnPolicySettings → PaymentMethod → Bool
method_allowed policy PaymentMethod.cash = policy.allow_refund_cash
method_allowed policy PaymentMethod.card = policy.allow_refund_card
method_allowed policy PaymentMethod.transfer = policy.allow_refund_transfer
method_allowed policy PaymentMethod.advance = true

-- The tests on a payment that is given back.
unfoldable pub check_refund_payment : PaymentMethod → PosPaymentCreate → Result (Unit {0})
check_refund_payment PaymentMethod.card p = do
  raise_if (leb_ℤ p.amount (pos 0)) validation_error
  raise_if (not p.authorization_code) validation_error
check_refund_payment PaymentMethod.transfer p = do
  raise_if (leb_ℤ p.amount (pos 0)) validation_error
  raise_if (not p.bank_name || not p.voucher_number) validation_error
check_refund_payment _ p = raise_if (leb_ℤ p.amount (pos 0)) validation_error

unfoldable pub check_refund_payments :
    ReturnPolicySettings → List PosPaymentCreate → Result (List PolicyException)
unfolding check_refund_payment method_allowed
check_refund_payments policy [] = ok []
check_refund_payments policy (p ∷ ps) = do
  check_refund_payment p.method p
  rest ← check_refund_payments policy ps
  ok (raised (not (method_allowed policy p.method)) refund_method_not_allowed ++ rest)

abbrev pub manager_roles : List Text
manager_roles = codes "MANAGER" ∷ codes "ADMIN" ∷ codes "SUPERADMIN" ∷ codes "PLATFORM_ADMIN" ∷ []

unfoldable pub require_manager_override :
    Text → ReturnPolicySettings → List PolicyException → Bool → Result (Unit {0})
unfolding upper member
require_manager_override role policy [] override = ok tt
require_manager_override role policy (e ∷ es) override = do
  raise_if (not policy.require_manager_for_exceptions) validation_error
  raise_if (not override) validation_error
  raise_if (not (member (upper role) manager_roles)) permission_denied
