-- ===== src/Scaling.antt =====
-- src/analyzers/hpa_analyzer.py: findings about horizontal pod autoscalers.
pub mod Analyzer
pub mod Categories
