-- ===== src/Core/RoundTrip.antt =====
-- What a receiver decodes is what the sender encoded.
pub mod Fields
pub mod Lossy
pub mod Counted
pub mod Sent
pub mod Frame
pub mod Nested
pub mod Whole
pub mod Again
