-- ===== src/Lib.antt =====
-- ARIS Cloud 3: a point-of-sale and inventory service over a relational database. Each request
-- runs a handler of app/aris3/routers, which resolves the caller's tenant and store
-- (app/aris3/core/scope.py), checks a permission (app/aris3/services/access_control.py), claims
-- the idempotency key (app/aris3/services/idempotency.py), and then reads and writes tables in
-- one transaction.
--
-- Scope models app/aris3/core/scope.py and the resolution of tenant and store at the top of the
-- handlers. Access models the decision on a permission and the listing of effective permissions.
-- Cash models the cash drawer: Cash/Db has the tables and the shared queries of
-- app/aris3/routers/pos_cash.py, Cash/Session the handler cash_session_action, Cash/Flow the
-- movements that sales, refunds, exchanges and vouchers cause (app/aris3/routers/pos_sales.py,
-- app/aris3/routers/pos_advances.py), Cash/DayClose the handler close_day with the
-- reconciliation, Cash/Cuts the handlers create_cash_cut and cash_cut_action, and Cash/Serve puts
-- the requests together as steps on the tables. The other files under Cash are about these:
-- Cash/Rows the rows by key, Cash/Ledger the invariant, Cash/Keeps its preservation, Cash/Frozen
-- and Cash/Locked the closed day, and Cash/Exact and Cash/Rollup the reconciliation. Payments
-- models _validate_payments of app/aris3/routers/pos_sales.py; Payments/Accepted is about which
-- payments pass, and Payments/Collected ties them to the cash of a checkout (checkout_cash of
-- Cash/Flow). Returns models the quote of a return (_quote_from_sale of
-- app/aris3/services/pos_returns.py), and Returns/Quantities compares it with what was sold;
-- Returns/Drafts models create_draft and apply_action there, and Returns/Completion is about the
-- end of a return. Advances models advances and gift cards (app/aris3/services/pos_advances.py),
-- with the handlers of app/aris3/routers/pos_advances.py in Advances/Handlers; Advances/Final and
-- Advances/Sweep are about their end, and a refund's cash. Transfers models
-- app/aris3/routers/transfers.py with app/aris3/repos/transfers.py: the rows and the scope of a
-- caller, Transfers/Stock the stock rows as a database session without autoflush sees them, each
-- with its stored and its live state, Transfers/Totals the sums of the movements, Transfers/Lines
-- the checks of the lines, Transfers/Drafts the handlers create_transfer, update_transfer and
-- get_transfer_detail, and Transfers/Actions the handler transfer_actions. About them are
-- Transfers/Status and Transfers/Closed (the status), Transfers/Sums, Transfers/Within and
-- Transfers/Invariant (the quantities), Transfers/Settled and Transfers/Live (when a transfer is
-- received), Transfers/Tracks, Transfers/Kept and Transfers/Conserved (the stock),
-- Transfers/Duties (the two stores) and Transfers/Rules (what the checks of an action establish).
-- Sales models sale_action of app/aris3/routers/pos_sales.py: its rows, Sales/Policy the checks
-- of the return policy, Sales/Refund the action REFUND_ITEMS, Sales/Checkout the action CHECKOUT,
-- and Sales/Actions the handler with CANCEL; Sales/Labels, Sales/Duplicates and Sales/Twice are
-- about the EPCs of the units sold, lines of one SKU, and an item that a refund lists twice.
-- EXCHANGE_ITEMS and the creation and update of a sale are not modelled. Idempotency models
-- app/aris3/services/idempotency.py; Idempotency/Runs lets handlers run side by side under it, as
-- a step relation, Idempotency/Once counts their commits, and Idempotency/Replay is about
-- retries. Tests has runs on small inputs.
--
-- A table is a list of records, newest row first, but for the stock of a transfer, which is in
-- the order of created_at; an id is a natural number, since the code only compares ids, and a
-- missing or empty id or text is none. Amounts are integers in cents: the columns are floats,
-- which the code reads back by Decimal(str(x)) and which keep two decimals. A SUM over such a
-- column is not exact: in the reconciliation of a day it is a parameter (Sums of Cash/DayClose),
-- whose results are integers in a finer unit, and only that sums of whole floats are exact is
-- assumed of it, where a result needs it. The Decimals of a rollup are exact. A handler is a
-- function from the tables to a Result: it returns the new tables or the code of
-- app/aris3/core/error_catalog.py that it raises; the transaction of a handler that raises is
-- rolled back, so an error has no tables. The id that uuid4 gives a new row is an argument, and
-- that it is fresh is a hypothesis. The time is an argument too. All recursion is structural over
-- the rows, so no fuel is needed.
--
-- Not modelled: the totals of the quote of a cash cut, locks between concurrent transactions, the
-- audit log, metrics, responses and their formatting, and the texts that are only copied into
-- rows.
pub mod Prelude
pub mod Access
pub mod Advances
pub mod Cash
pub mod Idempotency
pub mod Payments
pub mod Returns
pub mod Sales
pub mod Scope
pub mod Transfers
pub mod Tests
