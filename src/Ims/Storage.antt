-- ===== src/Ims/Storage.antt =====
-- ims/storage.go: the storage, its two indexes of the latest message ids, and the scans that rebuild
-- them from the block files.
pub mod Defs
unfoldable pub use Defs.*
pub mod Log
pub mod Indexes
pub mod Logged
pub mod Saves
