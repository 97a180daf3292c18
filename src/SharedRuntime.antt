-- ===== src/SharedRuntime.antt =====
-- src/kafka_a2a/runtime/shared_runtime.py: `State` has the registry of the control plane and the
-- agents that the service runs, and `_reconcile`. The other modules hold the proofs.
pub mod State
pub mod Folds
pub mod Stops
pub mod Reconcile
