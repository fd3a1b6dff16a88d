-- ===== src/Ims.antt =====
-- The package ims/: the storage server.
pub mod StorageFile
pub mod Storage
pub mod PeerStorage
pub mod GroupStorage
pub mod Replication
