-- ===== src/Worklist.antt =====
-- src/worklist.py: the SQLite worklist of the audit-run agents.
pub mod Tables
pub mod Tasks
pub mod Runs
pub mod Claims
pub mod Held
pub mod Traces
pub mod Seeding
pub mod Phases
pub mod Progress
