-- ===== src/Seeds.antt =====
-- src/worklist_seed.py: the order in which tasks are seeded, and the tasks themselves.
pub mod Plan
pub mod Canonical
pub mod Counting
pub mod Relaxing
pub mod Edges
pub mod Blockers
pub mod Invariant
pub mod Outcome
pub mod Order
pub mod Acyclic
pub mod Progress
pub mod Seeded
