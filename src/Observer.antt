-- ===== src/Observer.antt =====
-- src/auto_remediate/runtime.py and src/analyzers/base.py: the loop that asks an analyzer for findings
-- and reports the new ones.
pub mod Findings
pub mod Loop
pub mod Window
pub mod Reference
pub mod Reported
pub mod Stopping
pub mod Unique
