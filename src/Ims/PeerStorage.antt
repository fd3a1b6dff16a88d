-- ===== src/Ims/PeerStorage.antt =====
-- ims/peer_storage.go: the queue of each user. Every message for a user is saved, and behind it an
-- entry of the user's queue that names it and the entry before it; the index holds the queue's end.
pub mod Defs
pub mod Loads
pub mod LoadsV3
pub mod Entries
pub mod Saves
pub mod Recovery
pub mod Queue
pub mod Loading
pub mod Delivery
pub mod IndexFile
unfoldable pub use Defs.*
unfoldable pub use Loads.*
unfoldable pub use LoadsV3.*
