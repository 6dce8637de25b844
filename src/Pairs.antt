-- ===== src/Pairs.antt =====
-- src/auto_remediate/dpo_pair.py: preference pairs that are filed as GitHub issues.
pub mod Redact
pub mod Issues
pub mod Secrets
pub mod Redacted
pub mod Idempotent
pub mod Emission
