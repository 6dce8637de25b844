-- ===== src/Safety.antt =====
-- The safety gate: src/safety_gate.py, src/safety_config.py and src/audit.py.
pub mod Glob
pub mod Config
pub mod Audit
pub mod Gate
pub mod Decisions
