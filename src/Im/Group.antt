-- ===== src/Im/Group.antt =====
-- im/group.go: the members of a group. Loading them from the database is not modelled, nor is the time
-- of the last access.
pub mod Defs
unfoldable pub use Defs.*
pub mod Views
