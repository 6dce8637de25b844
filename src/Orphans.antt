-- ===== src/Orphans.antt =====
-- src/analyzers/orphan_job_cleaner.py: the search for jobs whose CronJob is gone, and their cleanup.
pub mod Jobs
pub mod Cleaner
pub mod Sorting
pub mod Search
