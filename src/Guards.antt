-- ===== src/Guards.antt =====
-- The guards by namespace of src/auto_remediate: namespace_guard.py and rbac_identities.py.
pub mod Namespaces
pub mod Agreement
