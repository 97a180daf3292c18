-- ===== src/Coins.antt =====
-- src/kafka_a2a/intera_coins.py: when the completion of a task is charged.
pub mod Tracker
pub mod Once
