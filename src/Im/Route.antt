-- ===== src/Im/Route.antt =====
-- im/route.go, im/app_route.go and im/client_sets.go: the clients of this server by app and user. A
-- mutex makes each call one step.
use im_service.Prelude.{
  ℕ, Bool, false, List, [], ◌∷◌, Option, none, some, length, ltb, ◌==◌, if◌then◌else◌,
}
use im_service.Prelude.Maps.{Map, value_at, put, delete}
use mathlib.Core.Option

-- The fields of a connection that routing reads; `id` stands for the pointer.
pub record Client : Type 0 where
  pub id : ℕ
  pub uid : ℕ
  pub device_id : ℕ

-- A set, as a list of its clients in some order.
abbrev pub ClientSet : Type 0
ClientSet = List Client

pub record Route : Type 0 where
  pub clients : Map ClientSet
  pub room_clients : Map ClientSet

abbrev pub AppRoute : Type 0
AppRoute = Map Route

abbrev pub new_route : Route
new_route = record { clients = []; room_clients = [] }

unfoldable pub remove_client_set : Client → ClientSet → ClientSet
remove_client_set c [] = []
remove_client_set c (d ∷ set) =
    if d.id == c.id then remove_client_set c set else d ∷ remove_client_set c set

unfoldable pub add_client_set : Client → ClientSet → ClientSet
unfolding remove_client_set
add_client_set c set = c ∷ remove_client_set c set

-- The set of a key gets a client; it is made if it is not there.
unfoldable pub add_at : ℕ → Client → Map ClientSet → Map ClientSet
unfolding add_client_set
add_at k c m = put k (add_client_set c (Option.get_or (value_at k m) [])) m

-- The set of a key loses a client, and goes with the last.
unfoldable pub remove_at : ℕ → Client → Map ClientSet → Map ClientSet
unfolding remove_client_set
remove_at k c m = elim (value_at k m) [
  | none ↦ m
  | some set ↦
      let left = remove_client_set c set in if length left == 0 then delete k m else put k left m
]

unfoldable pub add_client : Client → Route → Route
unfolding add_at
add_client c r = record r { clients = add_at c.uid c r.clients }

unfoldable pub remove_client : Client → Route → Route
unfolding remove_at
remove_client c r = record r { clients = remove_at c.uid c r.clients }

unfoldable pub add_room_client : ℕ → Client → Route → Route
unfolding add_at
add_room_client room_id c r = record r { room_clients = add_at room_id c r.room_clients }

unfoldable pub remove_room_client : ℕ → Client → Route → Route
unfolding remove_at
remove_room_client room_id c r = record r { room_clients = remove_at room_id c r.room_clients }

-- A set of nil has no clients.
unfoldable pub find_client_set : ℕ → Route → ClientSet
find_client_set uid r = Option.get_or (value_at uid r.clients) []

unfoldable pub find_room_client_set : ℕ → Route → ClientSet
find_room_client_set room_id r = Option.get_or (value_at room_id r.room_clients) []

unfoldable pub is_online : ℕ → Route → Bool
is_online uid r = elim (value_at uid r.clients) [ none ↦ false | some set ↦ ltb 0 (length set) ]

unfoldable pub find_route : ℕ → AppRoute → Option Route
find_route appid a = value_at appid a

-- `FindOrAddRoute`, with `NewRoute`, and what is done to the route.
unfoldable pub at_route : ℕ → (Route → Route) → AppRoute → AppRoute
at_route appid f a = put appid (f (Option.get_or (value_at appid a) new_route)) a
