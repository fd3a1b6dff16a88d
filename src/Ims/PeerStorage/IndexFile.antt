-- ===== src/Ims/PeerStorage/IndexFile.antt =====
-- ims/peer_storage.go: the index file, from which a storage starts.
pub mod Defs
pub mod RoundTrip
