-- ===== src/Journal.antt =====
-- src/auto_remediate/audit_logger.py and audit_query.py: the audit log of the remediation, and the
-- queries on it.
pub mod Records
pub mod Logger
pub mod Query
pub mod Newest
pub mod Lines
pub mod Kept
pub mod Rotation
