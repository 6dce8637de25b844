-- ===== src/Tests.antt =====
-- Runs of the model on concrete inputs, and the theorems at inputs that meet their hypotheses.
mod Safety
mod Sandbox
mod Journal
mod Inventory
mod Ladder
mod Worklist
mod Orphans
mod Watcher
mod Gitops
mod Watchdog
mod Guards
mod Seeds
mod Observer
mod Fixes
mod Pairs
mod Caches
mod Budgets
mod Scaling
