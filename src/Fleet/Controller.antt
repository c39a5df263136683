-- ===== src/Fleet/Controller.antt =====
-- `FleetController` of steam_pumper/fleet.py: its state (`State`), the health of a line
-- (`Health`), the schedule (`Schedule`) and the polling of the engines (`Engines`).
pub mod State
pub mod Health
pub mod Schedule
pub mod Engines
pub mod Tick
