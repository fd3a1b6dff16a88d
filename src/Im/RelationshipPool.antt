-- ===== src/Im/RelationshipPool.antt =====
-- im/relationship_pool.go: the cache of the relationships, and the events that change them.
pub mod Defs
unfoldable pub use Defs.*
pub mod Items
pub mod Coherent
pub mod Twice
