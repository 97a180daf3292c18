-- ===== src/TaskStore.antt =====
-- src/kafka_a2a/runtime/task_store.py: `State` has the store and its tasks, `Append` the writers of
-- the event log, `Reader` subscriptions and `iter_events`, `PushConfigs` the push notification
-- configs. The other modules hold the proofs.
pub mod State
pub mod Append
pub mod Reader
pub mod PushConfigs
pub mod Ops
pub mod Log
pub mod WellFormed
pub mod Queues
pub mod Delivery
pub mod Streams
pub mod Complete
pub mod Drain
pub mod CatchUp
pub mod Numbers
pub mod PushLaws
