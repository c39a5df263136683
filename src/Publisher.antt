-- ===== src/Publisher.antt =====
-- The daily publication of the source list (source_publisher/).
pub mod Due
pub mod Loop
pub mod Bucket
pub mod Candidates
pub mod Manifest
pub mod Probe
pub mod Service
mod Tests
