-- ===== src/Fleet.antt =====
-- The fleet mode of the pumper, steam_pumper/fleet.py: the account inventory, the traffic ledger,
-- the configuration that they read, the clock and the floating-point arithmetic.
pub mod Strings
pub mod Accounts
pub mod Clock
pub mod Floats
pub mod Config
pub mod Store
pub mod Controller
mod Tests
