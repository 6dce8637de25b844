-- ===== src/Watchdog.antt =====
-- src/auto_remediate/watchdog.py: the five-minute watch on a pod after a remediation.
pub mod Data
pub mod Checks
pub mod Loop
pub mod Verdicts
pub mod Outcomes
pub mod Deadline
pub mod Returns
pub mod Events
