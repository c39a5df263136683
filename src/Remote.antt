-- ===== src/Remote.antt =====
-- The signed remote list of sources (steam_pumper/remote_sources.py): the manifest (`Document`,
-- `Url`, `Payload`), the signed envelope (`Envelope`), the manager that keeps the last accepted
-- list (`Manager`), and the worker that refreshes it (`Worker`).
pub mod Document
pub mod Url
pub mod Payload
pub mod Envelope
pub mod Manager
pub mod Settings
pub mod Worker
mod Tests
