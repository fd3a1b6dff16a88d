-- ===== src/Imr/Agreement.antt =====
-- The channel of an `im` server (im/channel.go) and its client at the route server (imr/client.go).
pub mod Sends
pub mod Calls
pub mod Reconnect
pub mod Views
