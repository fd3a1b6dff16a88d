-- ===== src/Im/Channel/Defs.antt =====
-- `Subscriber` and `Channel`, and the calls that subscribe. The mutex covers the change of the counts and
-- not the send that follows it: the calls here do not overlap.
use Prim.Native.Nat.{bit_or}
use im_service.Prelude.{
  ℕ, ◌+◌, ◌-◌, ◌*◌, ◌/◌, ◌%◌, ◌^◌, Bool, true, false, ◌&&◌, List, [], ◌∷◌, ◌++◌, none, some, length,
  ltb, ◌==◌, if◌then◌else◌,
}
use im_service.Prelude.Maps.{Map, value_at, put, delete}
use im_service.Core.Body.{Message, Body, Nested, AppHeader}
use im_service.Core.Command.{
  msg_subscribe, msg_unsubscribe, msg_publish, msg_publish_group, msg_push, msg_subscribe_room,
  msg_unsubscribe_room, msg_publish_room,
}
use mathlib.Core.Option

-- `uids` holds for each user the number of connections and how many of them are online, packed.
pub record Subscriber : Type 0 where
  pub uids : Map ℕ
  pub room_ids : Map ℕ

-- `wt` is what was sent to the channel `wt`, in order.
pub record Channel : Type 0 where
  pub subscribers : Map Subscriber
  pub wt : List Message

abbrev pub new_subscriber : Subscriber
new_subscriber = record { uids = []; room_ids = [] }

abbrev pub new_channel : Channel
new_channel = record { subscribers = []; wt = [] }

-- `count & 0xffff` and `count >> 16 & 0xffff`.
abbrev pub total_of : ℕ → ℕ
total_of count = count % 2 ^ 16

abbrev pub online_of : ℕ → ℕ
online_of count = count / 2 ^ 16 % 2 ^ 16

-- `c2<<16 | c1`, in an int of 64 bits.
unfoldable pub pack : ℕ → ℕ → ℕ
pack c2 c1 = bit_or (c2 * 2 ^ 16 % 2 ^ 64) c1

-- The subscriber of an appid, which is made if it is not there.
unfoldable pub subscriber_of : ℕ → Channel → Subscriber
subscriber_of appid c = Option.get_or (value_at appid c.subscribers) new_subscriber

unfoldable pub set_subscriber : ℕ → Subscriber → Channel → Channel
set_subscriber appid s c = record c { subscribers = put appid s c.subscribers }

-- `AddSubscribe`: the counts before it.
unfoldable pub add_subscribe : ℕ → ℕ → Bool → Channel → Channel × ℕ × ℕ
add_subscribe appid uid online c =
    let s = subscriber_of appid c in
    let count = Option.get_or (value_at uid s.uids) 0 in
    let c1 = total_of count in
    let c2 = online_of count in
    let c2' = if online then c2 + 1 else c2 in
    (
      set_subscriber appid (record s { uids = put uid (pack c2' (c1 + 1)) s.uids }) c,
      total_of count,
      online_of count,
    )

-- `c2 -= 1`, in an int of 64 bits.
abbrev pub minus_one : ℕ → ℕ
minus_one c2 = (c2 + (2 ^ 64 - 1)) % 2 ^ 64

-- The users of a subscriber after one connection of a user with this count has gone.
unfoldable pub remove_uid : ℕ → Bool → ℕ → Subscriber → Subscriber
remove_uid uid online count s =
    let c2 = if online then minus_one (online_of count) else online_of count in
    let c1 = total_of count - 1 in
    if ltb 0 c1
    then record s { uids = put uid (pack c2 c1) s.uids }
    else record s { uids = delete uid s.uids }

-- `RemoveSubscribe`: the counts before it.
unfoldable pub remove_subscribe : ℕ → ℕ → Bool → Channel → Channel × ℕ × ℕ
remove_subscribe appid uid online c = elim (value_at appid c.subscribers) [
  | none ↦ (c, 0, 0)
  | some s ↦ elim (value_at uid s.uids) [
    | none ↦ (c, 0, 0)
    | some count ↦
        (set_subscriber appid (remove_uid uid online count s) c, total_of count, online_of count)
  ]
]

-- `channel.wt <- msg`.
unfoldable pub write : ℕ → Body → Channel → Channel
write cmd body c = record c { wt = c.wt ++ Message.message cmd 0 0 0 body none ∷ [] }

abbrev pub subscribe_body : ℕ → ℕ → Bool → Body
subscribe_body appid uid online =
    Body.subscribe (record { appid = appid; uid = uid; online = if online then 1 else 0 })

-- `Subscribe`: the route server is told of a user's first connection, and of the first that is online.
unfoldable pub subscribe : ℕ → ℕ → Bool → Channel → Channel
subscribe appid uid online c =
    let (c', count, online_count) = add_subscribe appid uid online c in
    if count == 0
    then write msg_subscribe (subscribe_body appid uid online) c'
    else if online_count == 0 && online
    then write msg_subscribe (subscribe_body appid uid true) c'
    else c'

-- `Unsubscribe`: it is told of the last connection, and of the last that is online.
unfoldable pub unsubscribe : ℕ → ℕ → Bool → Channel → Channel
unsubscribe appid uid online c =
    let (c', count, online_count) = remove_subscribe appid uid online c in
    if count == 1
    then write msg_unsubscribe (Body.app_user_id (record { appid = appid; uid = uid })) c'
    else if ltb 1 count && online_count == 1 && online
    then write msg_subscribe (subscribe_body appid uid false) c'
    else c'

-- `AddSubscribeRoom`: the count before it.
unfoldable pub add_subscribe_room : ℕ → ℕ → Channel → Channel × ℕ
add_subscribe_room appid room_id c =
    let s = subscriber_of appid c in
    let count = Option.get_or (value_at room_id s.room_ids) 0 in
    (set_subscriber appid (record s { room_ids = put room_id (count + 1) s.room_ids }) c, count)

unfoldable pub remove_room : ℕ → ℕ → Subscriber → Subscriber
remove_room room_id count s =
    if ltb 1 count
    then record s { room_ids = put room_id (count - 1) s.room_ids }
    else record s { room_ids = delete room_id s.room_ids }

-- `RemoveSubscribeRoom`: the count before it.
unfoldable pub remove_subscribe_room : ℕ → ℕ → Channel → Channel × ℕ
remove_subscribe_room appid room_id c = elim (value_at appid c.subscribers) [
  | none ↦ (c, 0)
  | some s ↦ elim (value_at room_id s.room_ids) [
    | none ↦ (c, 0)
    | some count ↦ (set_subscriber appid (remove_room room_id count s) c, count)
  ]
]

abbrev pub room_body : ℕ → ℕ → Body
room_body appid room_id = Body.app_room_id (record { appid = appid; room_id = room_id })

unfoldable pub subscribe_room : ℕ → ℕ → Channel → Channel
subscribe_room appid room_id c =
    let (c', count) = add_subscribe_room appid room_id c in
    if count == 0 then write msg_subscribe_room (room_body appid room_id) c' else c'

unfoldable pub unsubscribe_room : ℕ → ℕ → Channel → Channel
unsubscribe_room appid room_id c =
    let (c', count) = remove_subscribe_room appid room_id c in
    if count == 1 then write msg_unsubscribe_room (room_body appid room_id) c' else c'

unfoldable pub publish : AppHeader → Nested → Channel → Channel
publish h m = write msg_publish (Body.app_message h m)

unfoldable pub publish_group : AppHeader → Nested → Channel → Channel
publish_group h m = write msg_publish_group (Body.app_message h m)

unfoldable pub publish_room : AppHeader → Nested → Channel → Channel
publish_room h m = write msg_publish_room (Body.app_message h m)

unfoldable pub push : ℕ → List ℕ → Message → Channel → Channel
push appid receivers m = write msg_push (Body.batch_push appid receivers (Nested.ref m))

-- The messages of `ReSubscribe` for the users of an appid, numbered from `seq + 1` on.
unfoldable pub re_subscribe_uids : ℕ → ℕ → Map ℕ → List Message
re_subscribe_uids seq appid [] = []
re_subscribe_uids seq appid ((uid, count) ∷ uids) =
    Message.message msg_subscribe (seq + 1) 0 0 (subscribe_body appid uid (ltb 0 (online_of count)))
      none
    ∷ re_subscribe_uids (seq + 1) appid uids

-- `ReSubscribe`: what it sends, and the last number.
unfoldable pub re_subscribe : ℕ → Map Subscriber → List Message × ℕ
re_subscribe seq [] = ([], seq)
re_subscribe seq ((appid, s) ∷ subs) =
    let sent = re_subscribe_uids seq appid s.uids in
    let (rest, last) = re_subscribe (seq + length s.uids) subs in (sent ++ rest, last)

-- `ReSubscribeRoom`, likewise.
unfoldable pub re_subscribe_room_ids : ℕ → ℕ → Map ℕ → List Message
re_subscribe_room_ids seq appid [] = []
re_subscribe_room_ids seq appid ((room_id, count) ∷ room_ids) =
    Message.message msg_subscribe_room (seq + 1) 0 0 (room_body appid room_id) none
    ∷ re_subscribe_room_ids (seq + 1) appid room_ids

unfoldable pub re_subscribe_room : ℕ → Map Subscriber → List Message × ℕ
re_subscribe_room seq [] = ([], seq)
re_subscribe_room seq ((appid, s) ∷ subs) =
    let sent = re_subscribe_room_ids seq appid s.room_ids in
    let (rest, last) = re_subscribe_room (seq + length s.room_ids) subs in (sent ++ rest, last)
