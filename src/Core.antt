-- ===== src/Core.antt =====
-- The package core/: the messages of the three servers and their binary form.
pub mod Body
pub mod Command
pub mod Encode
pub mod Decode
pub mod RoundTrip
pub mod Total
