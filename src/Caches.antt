-- ===== src/Caches.antt =====
-- src/auto_remediate/finding_cache.py, finding_store.py and deterministic_table.py.
pub mod Models
pub mod Cache
pub mod Store
pub mod Recall
pub mod Counts
pub mod Table
