-- ===== src/Im/GroupMessageDeliver.antt =====
-- im/group_message_deliver.go: group messages wait in a file until they are sent to the members. The
-- loading of groups in `run2` is not modelled.
pub mod Defs
unfoldable pub use Defs.*
pub mod Records
pub mod Waiting
pub mod Flush
pub mod Rounds
pub mod Saves
pub mod Restart
pub mod Runs
pub mod Sequences
pub mod Send
