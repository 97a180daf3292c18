-- ===== src/Decisioning.antt =====
-- src/kafka_a2a/decisioning/: decisions that an outside provider takes in the shadow of the baseline.
pub mod Contracts
pub mod Circuit
pub mod Service
pub mod Retry
pub mod Breaker
