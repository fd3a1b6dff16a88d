-- ===== src/Core/Decode.antt =====
-- `FromData` of each body, `ReadHeader` and `ReceiveLimitMessage` of core/protocol.go.
-- A reader is the list of the bytes that it still gives; a read that wants more of them fails.
mod Fields
mod Bodies
mod Receive
unfoldable pub use Fields.*
unfoldable pub use Bodies.*
unfoldable pub use Receive.*
