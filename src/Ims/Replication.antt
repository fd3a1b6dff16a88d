-- ===== src/Ims/Replication.antt =====
-- ims/storage.go and ims/storage_sync.go: what a master sends to a slave, and what the slave does with it.
pub mod Defs
unfoldable pub use Defs.*
pub mod Slaver
pub mod Peers
pub mod Batches
pub mod Loads
pub mod Catching
