-- ===== src/Fleet/Store.antt =====
-- `FleetStore` of steam_pumper/fleet.py, the SQLite ledger: its rows and statements (`Rows`), the
-- split of an interval over minutes (`Intervals`), the upload window (`Business`), the accounting
-- of one SNMP sample (`Snmp`) and the rolling totals (`Totals`).
pub mod Rows
pub mod Intervals
pub mod Business
pub mod Rates
pub mod Snmp
pub mod Totals
