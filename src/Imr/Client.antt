-- ===== src/Imr/Client.antt =====
-- imr/client.go, imr/client_sets.go and imr/route_server.go: the connected `im` servers, and what the
-- route server does with a message from one of them.
pub mod Defs
pub mod Flags
pub mod Delivery
unfoldable pub use Defs.*
