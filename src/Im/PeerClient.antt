-- ===== src/Im/PeerClient.antt =====
-- im/peer_client.go: the handlers of a client's messages to users, and isSender of connection.go.
pub mod Defs
unfoldable pub use Defs.*
pub mod Messages
pub mod Decisions
pub mod Verdicts
pub mod Assertions
pub mod Syncs
