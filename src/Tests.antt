-- ===== src/Tests.antt =====
-- The theorems at concrete inputs.
pub mod Data
pub mod Stores
pub mod Agents
pub mod Access
pub mod Services
pub mod RedisServer
pub mod Redis
pub mod Client
pub mod Runtime
pub mod Delivery
