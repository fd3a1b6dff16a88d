-- ===== src/Imr/Route/Defs.antt =====
-- `IntSet`, `Route` and `AppRoute`.
use im_service.Prelude.{ℕ, Bool, true, false, [], ◌∷◌, Option, none, some, if◌then◌else◌}
use im_service.Prelude.Maps.{Map, value_at, put, delete}
use mathlib.Core.Option

-- `IntSet`: a map to an empty struct.
abbrev pub IntSet : Type 0
IntSet = Map (Unit {0})

unfoldable pub is_member : ℕ → IntSet → Bool
is_member v set = elim (value_at v set) [ none ↦ false | some u ↦ true ]

unfoldable pub add_member : ℕ → IntSet → IntSet
add_member v set = if is_member v set then set else put v tt set

unfoldable pub remove_member : ℕ → IntSet → IntSet
remove_member v set = if is_member v set then delete v set else set

-- `uids` says of each user whether the user is online.
pub record Route : Type 0 where
  pub appid : ℕ
  pub uids : Map Bool
  pub room_ids : IntSet

abbrev pub new_route : ℕ → Route
new_route appid = record { appid = appid; uids = []; room_ids = [] }

unfoldable pub contain_user_id : ℕ → Route → Bool
contain_user_id uid r = elim (value_at uid r.uids) [ none ↦ false | some on ↦ true ]

unfoldable pub is_user_online : ℕ → Route → Bool
is_user_online uid r = Option.get_or (value_at uid r.uids) false

unfoldable pub add_user_id : ℕ → Bool → Route → Route
add_user_id uid online r = record r { uids = put uid online r.uids }

unfoldable pub remove_user_id : ℕ → Route → Route
remove_user_id uid r = record r { uids = delete uid r.uids }

-- `GetUserIDs`.
unfoldable pub uid_set : Map Bool → IntSet
unfolding add_member
uid_set [] = []
uid_set ((uid, on) ∷ uids) = add_member uid (uid_set uids)

unfoldable pub contain_room_id : ℕ → Route → Bool
contain_room_id room_id r = is_member room_id r.room_ids

unfoldable pub add_room_id : ℕ → Route → Route
add_room_id room_id r = record r { room_ids = add_member room_id r.room_ids }

unfoldable pub remove_room_id : ℕ → Route → Route
remove_room_id room_id r = record r { room_ids = remove_member room_id r.room_ids }

-- `AppRoute`: the route of each app.
abbrev pub AppRoute : Type 0
AppRoute = Map Route

unfoldable pub find_route : ℕ → AppRoute → Option Route
find_route appid apps = value_at appid apps

-- `FindOrAddRoute`, and a call of the route that it returns.
unfoldable pub at_route : ℕ → (Route → Route) → AppRoute → AppRoute
at_route appid call apps =
    put appid (call (Option.get_or (find_route appid apps) (new_route appid))) apps

-- `AddRoute`.
unfoldable pub add_route : Route → AppRoute → AppRoute
add_route r apps = put r.appid r apps

-- `GetUsers`.
unfoldable pub get_users : AppRoute → Map IntSet
get_users [] = []
get_users ((appid, r) ∷ apps) = (appid, uid_set r.uids) ∷ get_users apps
