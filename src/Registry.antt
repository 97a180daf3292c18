-- ===== src/Registry.antt =====
-- src/kafka_a2a/registry/: the agents that are known.
pub mod Entries
pub mod Directory
pub mod Acts
pub mod Latest
