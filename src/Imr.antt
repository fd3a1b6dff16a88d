-- ===== src/Imr.antt =====
-- The package imr/: the server that routes messages between the servers of the package im/.
pub mod Route
pub mod Client
pub mod Agreement
