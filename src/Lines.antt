-- ===== src/Lines.antt =====
-- The single-host programs: lines, the time window, metrics and engines (steam_pumper/topology.py,
-- config.py, metrics.py, engine.py).
pub mod Targets
pub mod Window
pub mod Metrics
pub mod Engine
pub mod Config
pub mod Staging
pub mod Sources
pub mod Control
mod Tests
