-- ===== src/Transport.antt =====
-- src/kafka_a2a/transport/kafka.py: `Scope` has the scope fields of an envelope, `Topics` the names of
-- the topics.
pub mod Scope
pub mod Envelope
pub mod Topics
