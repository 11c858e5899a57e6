-- ===== src/Tests/Sales.antt =====
-- A unit with an EPC that is sold and cannot be given back, and two lines of one SKU
-- (app/aris3/routers/pos_sales.py).
use aris_cloud.Prelude.{
  length, ℕ, ◌+◌, refl, ◌≡◌, true, false, List, [], ◌∷◌, map, arith, All, first, Option, none, some,
  or_else,
}
use aris_cloud.Prelude.Int.{ℤ, pos, ◌+ℤ◌, ◌-ℤ◌}
use aris_cloud.Prelude.Result.{ok, err, Ensures, validation_error}
use aris_cloud.Prelude.{◌*◌}
use aris_cloud.Access.{
  resolve_role_scope, evaluate_sets, sets_for_role, get_denied_permissions, get_user_overrides,
  get_store_role_policy, get_tenant_role_policy, get_allowed_permissions, evaluate_permission,
}
use aris_cloud.Sales.{
  lines_of, find_sale, check_cash_session, put_sale, find_sale_line, SaleRow, SaleLineRow, SaleDb,
  Seller, to_pending, PosSaleActionRequest, SaleAction, checkout, refund_items, draft_sale, paid,
}
use aris_cloud.Sales.Policy.{
  window_exceptions, item_exceptions, method_allowed, check_refund_payment, check_refund_payments,
  require_manager_override,
}
use aris_cloud.Sales.Refund.{
  new_unit, Returned, refund_line, refund_subtotal, sum_amounts, is_cash, sold_epc, sold_sku,
  take_back, is_relabeled, return_units, return_each, check_refund, refund_sale_items,
}
use aris_cloud.Sales.Checkout.{
  unsold_epc, unsold_sku, as_sold_epc, sell_line, sell_lines, total_due_of, is_advance,
  check_advance, consume_advance, checkout_sale,
}
use aris_cloud.Payments.{
  check_method, add_payment, add_payments, check_sums, validate_payments, PosPaymentCreate,
  PaymentMethod,
}
use aris_cloud.Transfers.Stock.{
  begin, commit, matching, change_first, change_rows, same_text, Tracked,
}
use aris_cloud.Prelude.Text.{text_eq, upper, member, strip, Text, codes}
use aris_cloud.Transfers.{is_epc, StockItem, LineType, epc_line, sku_line}
use aris_cloud.Transfers.Lines.{truthy}
use aris_cloud.Returns.{find_line, completed_returned_quantity, returned_in, times}
use aris_cloud.Cash.Serve.{empty}
use aris_cloud.Advances.Handlers.{by_id}
use aris_cloud.Sales.Labels.{IsPlain, checkout-refund-IsPlain}
use aris_cloud.Sales.Unlabeled.{IsUnlabeled, is_sold_labeled}
use aris_cloud.Sales.Duplicates.{sell_line-again}
use aris_cloud.Sales.Twice.{return_each-twice}
use aris_cloud.Sales.{sold, SaleReturnItem}

abbrev seller : Seller
seller = record {
  caller = record { tenant_id = 1; store_id = 10; user_id = 7; now = 500; new_id = 60 };
  token = record { tenant_id = some 1; store_id = some 10; role = codes "USER" };
  access = record {
    catalog = codes "POS_SALE_REFUND" ∷ [];
    templates = [];
    tenant_policies = [];
    store_policies = [];
    user_overrides =
        record {
          tenant_id = 1;
          user_id = 7;
          permission_code = codes "POS_SALE_REFUND";
          effect = some (codes "allow");
        }
        ∷ [];
    deny_resolvers = [];
  };
  context = record {
    user_id = some 7;
    tenant_id = some 1;
    store_id = none;
    role = some (codes "USER");
  };
  role = codes "USER";
  policy = record {
    return_window = 604800;
    require_receipt = false;
    allow_refund_cash = true;
    allow_refund_card = true;
    allow_refund_transfer = true;
    allow_exchange = true;
    require_manager_for_exceptions = true;
    accepted_conditions = [];
    non_reusable_label_strategy = to_pending;
    restocking_fee_of = λ subtotal. pos 0;
  };
  new_stock_id = λ k. 300 + k;
  new_epc = λ k. k ∷ [];
}

abbrev unit : ℕ → Option Text → StockItem
unit id epc = record {
  id = id;
  tenant_id = 1;
  store_id = some 10;
  sku = some (codes "A");
  description = none;
  var1_value = none;
  var2_value = none;
  epc = epc;
  location_code = some (codes "F1");
  pool = some (codes "P");
  status = some (codes "RFID");
  location_is_vendible = true;
}

abbrev line : ℕ → LineType → ℕ → Option Text → SaleLineRow
line id line_type qty epc = record {
  id = id;
  sale_id = 8;
  line_type = line_type;
  qty = qty;
  unit_price = pos 1000;
  line_total = pos (qty * 1000);
  sku = some (codes "A");
  description = none;
  var1_value = none;
  var2_value = none;
  epc = epc;
  location_code = some (codes "F1");
  pool = some (codes "P");
  status = some (codes "RFID");
}

abbrev sale : SaleRow
sale = record {
  id = 8;
  tenant_id = 1;
  store_id = 10;
  status = draft_sale;
  total_due = pos 1000;
  paid_total = pos 0;
  balance_due = pos 1000;
  change_due = pos 0;
  checked_out_at = none;
  receipt_number = none;
}

abbrev db : SaleDb
db = record {
  stores = [];
  sales = sale ∷ [];
  lines = line 90 epc_line 1 (some (codes "E")) ∷ [];
  stock = unit 1 (some (codes "E")) ∷ unit 2 none ∷ unit 3 none ∷ unit 4 none ∷ [];
  events = [];
  vouchers = record { advances = []; events = []; sales = []; cash = empty };
}

abbrev card : ℤ → PosPaymentCreate
card amount = record {
  method = PaymentMethod.card;
  amount = amount;
  authorization_code = true;
  bank_name = false;
  voucher_number = false;
  reference_code = false;
  advance_id = false;
}

abbrev payload : SaleAction → PosSaleActionRequest
payload action = record {
  transaction_id = some (codes "t");
  action = action;
  payments = record { payment = card (pos 1000); advance = by_id 0 } ∷ [];
  refund_payments = card (pos 1000) ∷ [];
  return_items = record { line_id = 90; qty = 1; condition = codes "NEW" } ∷ [];
  receipt_number = none;
  manager_override = false;
}

abbrev after : SaleDb
after = elim (checkout_sale seller (payload checkout) sale db) [ ok db' ↦ db' | err e ↦ db ]

abbrev paid_row : SaleRow
paid_row = or_else (first after.sales) sale

abbrev two : List Tracked
two = begin (unit 2 none ∷ unit 3 none ∷ unit 4 none ∷ [])

abbrev first_sold : List Tracked
first_sold = elim (sell_line sale (line 91 sku_line 2 none) two) [ ok rows ↦ rows | err e ↦ [] ]

-- The unit is sold, and the refund of its line is refused.
runs :
    (checkout_sale seller (payload checkout) sale db ≡ ok after)
    × (refund_sale_items seller (payload refund_items) paid_row after ≡ err validation_error)
    × (paid_row.status ≡ paid)
    × (sell_line sale (line 91 sku_line 2 none) two ≡ ok first_sold)
    × (map (λ x. x.location_is_vendible) (commit first_sold) ≡ false ∷ false ∷ true ∷ [])
unfolding lines_of find_sale check_cash_session put_sale find_sale_line window_exceptions
    item_exceptions method_allowed check_refund_payment check_refund_payments
    require_manager_override refund_line refund_subtotal sum_amounts is_cash sold_epc sold_sku
    take_back is_relabeled new_unit return_units return_each check_refund refund_sale_items
    unsold_epc unsold_sku as_sold_epc sell_line sell_lines total_due_of is_advance check_advance
    consume_advance checkout_sale check_method add_payment add_payments check_sums validate_payments
    begin commit matching change_first change_rows same_text text_eq upper member strip is_epc
    truthy find_line completed_returned_quantity returned_in times ◌+ℤ◌ ◌-ℤ◌ resolve_role_scope
    evaluate_sets sets_for_role get_denied_permissions get_user_overrides get_store_role_policy
    get_tenant_role_policy get_allowed_permissions evaluate_permission
runs = (refl, refl, refl, refl, refl)

checkout-refund-IsPlain_example :
    All IsUnlabeled after.stock
    × Ensures
        (λ _. All (IsPlain (lines_of paid_row.id after.lines)) (payload refund_items).return_items)
        (refund_sale_items seller (payload refund_items) paid_row after)
unfolding is_sold_labeled same_text truthy text_eq
checkout-refund-IsPlain_example =
    checkout-refund-IsPlain seller seller (payload checkout) (payload refund_items) sale paid_row db
      after (refl, (refl, (refl, (refl, tt)))) runs.0

sell_line-again_example :
    sell_line sale (record (line 91 sku_line 2 none) { id = 92; qty = 2 }) first_sold
    ≡ ok first_sold
unfolding is_epc
sell_line-again_example =
    sell_line-again sale (line 91 sku_line 2 none) 92 2 two first_sold refl (ground arith) runs.3

abbrev two_sold : List Tracked
two_sold =
    begin (record (unit 3 none) { status = sold } ∷ record (unit 4 none) { status = sold } ∷ [])

abbrev two_lines : List SaleLineRow
two_lines = line 91 sku_line 2 none ∷ []

abbrev both : SaleReturnItem
both = record { line_id = 91; qty = 2; condition = codes "NEW" }

abbrev taken_back : Returned
taken_back = elim (return_each seller sale two_lines 0 (both ∷ []) two_sold) [
  | ok returned ↦ returned
  | err e ↦ record { rows = []; added = [] }
]

-- Two units were sold and come back once.
returned_once :
    (refund_subtotal two_lines [] (both ∷ []) ≡ ok (pos 2000))
    × (return_each seller sale two_lines 0 (both ∷ []) two_sold ≡ ok taken_back)
    × (map (λ x. x.status) (commit taken_back.rows)
        ≡ some (codes "PENDING") ∷ some (codes "PENDING") ∷ [])
unfolding find_sale_line refund_line refund_subtotal sold_sku return_units return_each begin commit
    matching change_first change_rows same_text text_eq upper is_epc completed_returned_quantity
    times ◌+ℤ◌ new_unit is_relabeled
returned_once = (refl, refl, refl)

return_each-twice_example :
    (refund_subtotal two_lines [] (both ∷ both ∷ []) ≡ ok (pos 2000 +ℤ pos 2000))
    × (twice : Returned) × (return_each seller sale two_lines 0 (both ∷ both ∷ []) two_sold
        ≡ ok twice)
    × (twice.rows ≡ taken_back.rows)
    × (length twice.added ≡ length taken_back.added + length taken_back.added)
return_each-twice_example =
    return_each-twice seller two_lines [] both (pos 2000) sale 0 two_sold taken_back returned_once.0
      returned_once.1
