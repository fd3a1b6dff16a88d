-- ===== src/Im/GroupMessageDeliver/Send.antt =====
-- `sendGroupMessage` of im/group_message_deliver.go: the members' messages.
pub mod Defs
unfoldable pub use Defs.*
pub mod Told
pub mod Due
pub mod Servers
pub mod Batches
pub mod Members
pub mod Answers
