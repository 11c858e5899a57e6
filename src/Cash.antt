-- ===== src/Cash.antt =====
-- The cash drawer: sessions, the movements of cash and the close of a day
-- (app/aris3/routers/pos_cash.py), and the cash parts of sales and vouchers
-- (app/aris3/routers/pos_sales.py, app/aris3/routers/pos_advances.py).
pub mod Db
pub mod Session
pub mod Flow
pub mod DayClose
pub mod Cuts
pub mod Serve
pub mod Rows
pub mod Ledger
pub mod Keeps
pub mod Reach
pub mod Frozen
pub mod Locked
pub mod Exact
pub mod Rollup
