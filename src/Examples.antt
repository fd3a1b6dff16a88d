-- ===== src/Examples.antt =====
-- The theorems at concrete inputs.
pub mod Messages
pub mod Caches
pub mod Files
pub mod Queues
pub mod Groups
pub mod Relationships
pub mod Routes
pub mod Members
pub mod Replicas
pub mod Deliveries
pub mod Clients
