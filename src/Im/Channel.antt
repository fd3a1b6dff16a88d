-- ===== src/Im/Channel.antt =====
-- im/channel.go: the connection to a route server, and the counts of what it subscribes there.
pub mod Defs
pub mod Counts
pub mod Connected
pub mod Mapped
pub mod Subscribed
unfoldable pub use Defs.*
