-- ===== src/Ims/StorageFile.antt =====
-- ims/storage_file.go: the block files message_0, message_1, ... and the ids of the messages in them.
-- The disk is a function from block numbers to the bytes of the file, if there is one; the system
-- calls on it succeed. A handle is its block's number. An id is a number: the program makes none
-- that an int64 does not hold while there are fewer than 2 ^ 36 blocks.
pub mod Defs
pub mod Stored
unfoldable pub use Defs.*
