-- ===== src/Performance.antt =====
-- internal/performance: the latency window, the process observer and the budgets of ADR-000.
pub mod Latency
pub mod Observer
pub mod Budgets
