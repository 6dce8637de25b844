-- ===== src/Fixes.antt =====
-- src/auto_remediate/deterministic_remediation.py: the fixes that need no language model.
pub mod Data
pub mod Patches
pub mod Conditions
pub mod Handlers
pub mod Choice
pub mod Reviews
pub mod Causes
