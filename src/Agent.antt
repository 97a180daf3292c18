-- ===== src/Agent.antt =====
-- src/kafka_a2a/runtime/agent.py: an agent's handlers of requests, and its processing of tasks.
pub mod Config
pub mod Delivery
pub mod Pushes
pub mod History
pub mod Conversation
pub mod State
pub mod Access
pub mod Messages
pub mod Tasks
pub mod PushRoutes
pub mod Route
pub mod Processing
pub mod Forward
pub mod Steps
pub mod Runs
pub mod Isolation
pub mod Ownership
pub mod Listing
pub mod Resume
pub mod Answers
pub mod Replay
pub mod PushQueue
