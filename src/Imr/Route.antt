-- ===== src/Imr/Route.antt =====
-- imr/route.go, imr/app_route.go and core/set.go: the users and the rooms of each app at one `im`
-- server. A mutex makes each call one step.
pub mod Defs
pub mod Flags
unfoldable pub use Defs.*
