-- ===== src/Inventory.antt =====
-- src/audit_inventory.py: the inventory of the audit's findings.
pub mod Findings
pub mod Components
pub mod Counted
pub mod Grouped
pub mod Tiers
