-- ===== src/Resilience.antt =====
-- Local protection of the proxy: app/core/resilience and the drain state of app/core/shutdown.py.
pub mod CircuitBreaker
pub mod RetryBudget
pub mod Admission
mod Tests
