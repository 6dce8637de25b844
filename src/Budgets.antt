-- ===== src/Budgets.antt =====
-- src/analyzers/pdb_analyzer.py: findings about pod disruption budgets.
pub mod Analyzer
pub mod Findings
