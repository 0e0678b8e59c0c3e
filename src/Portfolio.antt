-- ===== src/Portfolio.antt =====
-- The analysis of a whole portfolio: services/portfolio_summary.py and services/unified_report.py.
pub mod Metrics
pub mod Tables
pub mod Summary
pub mod Attention
pub mod Projection
pub mod Simulation
pub mod Endpoint
pub mod Protection
pub mod Unified
pub mod Survival
pub mod Runner
mod Tests
