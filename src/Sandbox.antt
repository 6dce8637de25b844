-- ===== src/Sandbox.antt =====
-- src/auto_remediate/vcluster_sandbox.py: the virtual cluster that a fix is tried in.
pub mod Data
pub mod Commands
pub mod Smoke
pub mod Lifecycle
pub mod Undeleted
pub mod Cleanup
pub mod Ensures
pub mod Applied
pub mod Prompt
pub mod Deadline
pub mod Ending
