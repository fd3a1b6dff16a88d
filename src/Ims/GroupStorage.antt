-- ===== src/Ims/GroupStorage.antt =====
-- ims/group_storage.go: the queue of each super group.
pub mod Defs
unfoldable pub use Defs.*
pub mod Recovery
