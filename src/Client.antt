-- ===== src/Client.antt =====
-- src/kafka_a2a/client.py: `State` has what the client keeps and its consumer loop, `Calls` the calls
-- and the streams. The other modules hold the proofs.
pub mod State
pub mod Calls
pub mod Brings
pub mod Correlates
pub mod StreamLaws
