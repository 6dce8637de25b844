-- ===== src/Ladder.antt =====
-- src/auto_remediate/remediation_ladder.py: the restart-first remediation ladder.
pub mod Types
pub mod Eligibility
pub mod Methods
pub mod Watch
pub mod Driver
pub mod Quiet
pub mod Transitions
pub mod Termination
pub mod Liveness
pub mod Healing
pub mod Aware
pub mod Breaker
