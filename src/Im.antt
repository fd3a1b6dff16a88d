-- ===== src/Im.antt =====
-- The package im/: the server of the clients' connections.
pub mod Relationship
pub mod Channel
pub mod RelationshipPool
pub mod Group
pub mod GroupMessageDeliver
pub mod Connection
pub mod Route
pub mod PeerClient
