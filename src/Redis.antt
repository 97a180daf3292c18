-- ===== src/Redis.antt =====
-- src/kafka_a2a/runtime/redis_task_store.py: `Server` has what the store relies on of the Redis
-- server, `Json` what it relies on of the JSON of the models, `Keys` the keys and `Store` the
-- operations. The other modules hold the proofs.
pub mod Server
pub mod Json
pub mod Keys
pub mod Store
pub mod Events
pub mod Held
pub mod Calls
pub mod Refines
pub mod Created
pub mod Agrees
pub mod Reads
pub mod Reader
pub mod Polls
pub mod Race
pub mod Push
