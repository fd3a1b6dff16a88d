-- ===== src/Im/RelationshipPool/Defs.antt =====
-- `RelationshipPool` and its calls. The time is an argument, in seconds.
use im_service.Prelude.{
  ℕ, ◌+◌, ◌-◌, ◌*◌, Bool, true, ◌&&◌, ◌||◌, List, [], ◌∷◌, Option, none, some, length, ltb, ◌==◌,
  if◌then◌else◌,
}
use im_service.Im.Relationship.{
  new_relationship, is_my_friend, is_your_friend, is_in_my_blacklist, is_in_your_blacklist, reverse,
  get_relationship,
}

-- `"%d:%d:%d"` of the three.
pub record PoolKey : Type 0 where
  pub appid : ℕ
  pub uid : ℕ
  pub friend_uid : ℕ

unfoldable pub same_pool_key : PoolKey → PoolKey → Bool
same_pool_key k j = k.appid == j.appid && (k.uid == j.uid && k.friend_uid == j.friend_uid)

-- `RelationshipItem`.
pub record Item : Type 0 where
  pub rs : ℕ
  pub ts : ℕ

abbrev pub Items : Type 0
Items = List (PoolKey × Item)

-- `Load`, `Delete` and `Store` of the map.
unfoldable pub load : PoolKey → Items → Option Item
load k [] = none
load k ((j, v) ∷ m) = if same_pool_key j k then some v else load k m

unfoldable pub unload : PoolKey → Items → Items
unload k [] = []
unload k ((j, v) ∷ m) = if same_pool_key j k then unload k m else (j, v) ∷ unload k m

unfoldable pub store : PoolKey → Item → Items → Items
store k v m = (k, v) ∷ unload k m

abbrev pub expire_duration : ℕ
expire_duration = 60 * 60

pub record RelationshipPool : Type 0 where
  pub items : Items
  pub item_count : ℕ
  pub dirty : Bool
  pub last_entry_id : ℕ
  pub action_id : ℕ

-- The rows of the two tables, or none if a statement cannot be prepared.
abbrev pub Rows : Type 0
Rows = ℕ → ℕ → ℕ → Bool

-- The two uids in order.
unfoldable pub ordered_key : ℕ → ℕ → ℕ → PoolKey
ordered_key appid uid friend_uid =
    if ltb friend_uid uid
    then record { appid = appid; uid = friend_uid; friend_uid = uid }
    else record { appid = appid; uid = uid; friend_uid = friend_uid }

abbrev pub as_seen : Bool → ℕ → ℕ
as_seen reversed rs = if reversed then reverse rs else rs

abbrev pub none_relationship : ℕ
none_relationship = 0

-- `GetRelationship` of the pool.
unfoldable pub pool_relationship :
    Option Rows → Option Rows → ℕ → ℕ → ℕ → ℕ → RelationshipPool → RelationshipPool × ℕ
pool_relationship friend blacklist now appid uid friend_uid p =
    let k = ordered_key appid uid friend_uid in
    let reversed = ltb friend_uid uid in
    elim (load k p.items) [
      | some r ↦
          (record p { items = store k (record r { ts = now }) p.items }, as_seen reversed r.rs)
      | none ↦ elim (get_relationship friend blacklist k.appid k.uid k.friend_uid) [
        | none ↦ (p, none_relationship)
        | some rs ↦ (
          record p {
            items = store k (record { rs = rs; ts = now }) p.items;
            item_count = p.item_count + 1;
          },
          as_seen reversed rs,
        )
      ]
    ]

-- A new relationship for a key that is there.
unfoldable pub change : PoolKey → (ℕ → ℕ) → RelationshipPool → RelationshipPool
change k f p = elim (load k p.items) [
  | none ↦ p
  | some r ↦ record p { items = store k (record r { rs = f r.rs }) p.items }
]

abbrev pub with_my_friend : Bool → ℕ → ℕ
with_my_friend b rs =
    new_relationship b (is_your_friend rs) (is_in_my_blacklist rs) (is_in_your_blacklist rs)

abbrev pub with_your_friend : Bool → ℕ → ℕ
with_your_friend b rs =
    new_relationship (is_my_friend rs) b (is_in_my_blacklist rs) (is_in_your_blacklist rs)

abbrev pub with_in_my_blacklist : Bool → ℕ → ℕ
with_in_my_blacklist b rs =
    new_relationship (is_my_friend rs) (is_your_friend rs) b (is_in_your_blacklist rs)

abbrev pub with_in_your_blacklist : Bool → ℕ → ℕ
with_in_your_blacklist b rs =
    new_relationship (is_my_friend rs) (is_your_friend rs) (is_in_my_blacklist rs) b

-- `SetMyFriend`, which calls `SetYourFriend` of the two in order if they are not.
unfoldable pub set_my_friend : ℕ → ℕ → ℕ → Bool → RelationshipPool → RelationshipPool
set_my_friend appid uid friend_uid b =
    let f = if ltb friend_uid uid then with_your_friend b else with_my_friend b in
    change (ordered_key appid uid friend_uid) f

-- `SetInMyBlacklist`, likewise.
unfoldable pub set_in_my_blacklist : ℕ → ℕ → ℕ → Bool → RelationshipPool → RelationshipPool
set_in_my_blacklist appid uid friend_uid b =
    let f = if ltb friend_uid uid then with_in_your_blacklist b else with_in_my_blacklist b in
    change (ordered_key appid uid friend_uid) f

-- `item_count` after `Recycle`, and the items that it keeps.
unfoldable pub keep_recent : ℕ → Items → Items
keep_recent now [] = []
keep_recent now ((k, v) ∷ m) =
    if ltb expire_duration (now - v.ts) then keep_recent now m else (k, v) ∷ keep_recent now m

unfoldable pub recycle : ℕ → RelationshipPool → RelationshipPool
unfolding keep_recent
recycle now p =
    let kept = keep_recent now p.items in record p { items = kept; item_count = length kept }

-- `Name` of an event.
pub data EventName : Type 0 where
  friend_event : EventName
  blacklist_event : EventName
  unknown_event : EventName

pub record RelationshipEvent : Type 0 where
  pub id : ℕ
  pub action_id : ℕ
  pub previous_action_id : ℕ
  pub name : EventName
  pub app_id : ℕ
  pub uid : ℕ
  pub friend_uid : ℕ
  pub is_friend : Bool
  pub is_blacklist : Bool

abbrev pub is_invalid : RelationshipEvent → Bool
is_invalid e = e.app_id == 0 || e.uid == 0 || e.friend_uid == 0

unfoldable pub handle_friend : RelationshipEvent → RelationshipPool → RelationshipPool
handle_friend e p =
    if is_invalid e then p else set_my_friend e.app_id e.uid e.friend_uid e.is_friend p

unfoldable pub handle_blacklist : RelationshipEvent → RelationshipPool → RelationshipPool
handle_blacklist e p =
    if is_invalid e then p else set_in_my_blacklist e.app_id e.uid e.friend_uid e.is_blacklist p

abbrev pub dispatch : EventName → RelationshipEvent → RelationshipPool → RelationshipPool
dispatch friend_event e p = handle_friend e p
dispatch blacklist_event e p = handle_blacklist e p
dispatch unknown_event e p = p

-- `handleEvent`: an event that does not follow the one before it makes the pool dirty.
unfoldable pub handle_event : RelationshipEvent → RelationshipPool → RelationshipPool
handle_event e p =
    let p' = if p.action_id == e.previous_action_id then p else record p { dirty = true } in
    record (dispatch e.name e p') { action_id = e.action_id; last_entry_id = e.id }
