-- ===== src/Im/GroupMessageDeliver/Send/Defs.antt =====
-- `sendGroupMessage` and `sendMessage`.
use im_service.Prelude.{
  ℕ, ◌-◌, ◌*◌, ◌%◌, ◌^◌, true, false, ◌&&◌, List, [], ◌∷◌, ◌++◌, Option, none, some, length, ◌==◌,
  if◌then◌else◌,
}
use im_service.Prelude.Bytes.{Bytes, neg64}
use im_service.Prelude.Maps.{Map, value_at, put}
use im_service.Core.Encode.{to_data}
use im_service.Core.Body.{Message, Body, Metadata, PendingGroupMessage}
use im_service.Core.Command.{default_version, msg_group_im, msg_sync_notify, message_flag_push}
use im_service.Im.Route.{Client, AppRoute, find_route, find_client_set}
use im_service.Im.Group.{Group, new_group}

-- What happened: storage answered the call for a batch with ids, `PublishMessage` was called, a message
-- was queued for a client of this server, `PushGroupMessage` was called.
pub data Effect : Type 0 where
  saved : List ℕ → List ℕ → Effect
  published : ℕ → ℕ → Message → Effect
  queued : ℕ → Message → Effect
  pushed : ℕ → Group → Message → Effect

-- `storages` is the state of the storage servers; `out` is what happened, in order.
pub record Net (R : Type 0) : Type 0 where
  pub storages : R
  pub app_route : AppRoute
  pub out : List Effect

-- The loop of `sendMessage` over a set: the sender's own device gets nothing.
unfoldable pub queue_for : ℕ → ℕ → ℕ → Message → List Client → List Effect
queue_for uid sender device_id m [] = []
queue_for uid sender device_id m (c ∷ set) =
    if c.device_id == device_id && sender == uid
    then queue_for uid sender device_id m set
    else Effect.queued c.id m ∷ queue_for uid sender device_id m set

-- `sendMessage`: what it does. Its result is not used.
unfoldable pub send_message : AppRoute → ℕ → ℕ → ℕ → ℕ → Message → List Effect
unfolding queue_for
send_message app_route appid uid sender device_id m =
    Effect.published appid uid m ∷ elim (find_route appid app_route) [
      | none ↦ []
      | some route ↦ queue_for uid sender device_id m (find_client_set uid route)
    ]

-- `GetStorageRPCIndex`, of an int64 by n storage servers; the least int64 is its own negative.
unfoldable pub storage_rpc_index : ℕ → ℕ → ℕ
storage_rpc_index n uid =
    let a = if neg64 uid then 2 ^ 64 - uid else uid in
    if neg64 a then (2 ^ 64 - a % n) % 2 ^ 64 else a % n

-- The body of the loop that fills `batch_members`.
unfoldable pub add_batch_member : ℕ → ℕ → Map (List ℕ) → Map (List ℕ)
add_batch_member index member batches = elim (value_at index batches) [
  | none ↦ put index (member ∷ []) batches
  | some mb ↦ put index (mb ++ member ∷ []) batches
]

-- The loop, over `n` storage servers.
unfoldable pub batch_members : ℕ → List ℕ → Map (List ℕ) → Map (List ℕ)
unfolding add_batch_member
batch_members n [] batches = batches
batch_members n (member ∷ members) batches =
    batch_members n members (add_batch_member (storage_rpc_index n member) member batches)

-- The loop that fills `group_members`.
unfoldable pub group_members : List ℕ → Map ℕ → Map ℕ
group_members [] m = m
group_members (member ∷ members) m = group_members members (put member 0 m)

module _ (gm : PendingGroupMessage) where
  abbrev pub group_im : Body
  group_im = Body.im_message (record {
    sender = gm.sender;
    receiver = gm.gid;
    timestamp = gm.timestamp;
    msgid = 0;
    content = gm.content;
  })

  -- The message for push, whose body goes to storage.
  abbrev pub group_message : Message
  group_message = Message.message msg_group_im 0 default_version 0 group_im none

  -- The message for a member, and the notice after it.
  abbrev pub member_message : Metadata → Message
  member_message meta =
      Message.message msg_group_im 0 default_version message_flag_push group_im (some meta)

  abbrev pub member_notify : Metadata → Message
  member_notify meta = Message.message msg_sync_notify 0 0 0 (Body.sync_key meta.sync_key) none

  unfoldable pub send_member : AppRoute → ℕ → Metadata → List Effect
  send_member app_route member meta =
      send_message app_route gm.appid member gm.sender gm.device_id (member_message meta)
      ++ send_message app_route gm.appid member gm.sender gm.device_id (member_notify meta)

  module _ {R : Type 0} where
    -- The loop over the ids of a batch; `metadata` are the ids of the sender, if it was there.
    unfoldable pub send_members : List ℕ → List ℕ → Metadata → Net R → Net R × Metadata
    unfolding send_member
    send_members [] r metadata net = (net, metadata)
    send_members (member ∷ mb) [] metadata net = (net, metadata)
    send_members (member ∷ mb) (msgid ∷ []) metadata net = (net, metadata)
    send_members (member ∷ mb) (msgid ∷ prev_msgid ∷ r) metadata net =
        let meta : Metadata = record { sync_key = msgid; prev_sync_key = prev_msgid } in
        send_members mb r (if member == gm.sender then meta else metadata)
          (record net { out = net.out ++ send_member net.app_route member meta })

    -- `storage` stands for the rpc `SavePeerGroupMessage` at the batch's server: the ids, or an error.
    module _ (storage : ℕ → List ℕ → ℕ → ℕ → Bytes → R → R × Option (List ℕ)) where
      unfoldable pub save_peer_group_message : List ℕ → Net R → Net R × Option (List ℕ)
      save_peer_group_message [] net = (net, some [])
      save_peer_group_message (member ∷ mb) net =
          let (st, r) =
            storage gm.appid (member ∷ mb) gm.device_id msg_group_im
              (to_data default_version group_im) net.storages in
          (record net { storages = st }, r)

      -- The loop over the batches.
      unfoldable pub send_batches : List (List ℕ) → Metadata → Net R → Net R × Option Metadata
      send_batches [] metadata net = (net, some metadata)
      send_batches (mb ∷ batches) metadata net =
          let (net', answer) = save_peer_group_message mb net in
          elim answer [
            | none ↦ (net', none)
            | some r ↦
                let net1 = record net' { out = net'.out ++ Effect.saved mb r ∷ [] } in
                elim (length r == length mb * 2) [
                  | false ↦ (net1, none)
                  | true ↦
                      let (net2, metadata') = send_members mb r metadata net1 in
                      send_batches batches metadata' net2
                ]
          ]

      -- `sendGroupMessage`, with `n` storage servers. `range` gives the batches in the order in which a
      -- range goes through the map.
      unfoldable pub send_group_message :
          ℕ → (Map (List ℕ) → List (List ℕ)) → Net R → Net R × Option Metadata
      unfolding batch_members group_members
      send_group_message n range net =
          let batches = batch_members n gm.members [] in
          let none_yet : Metadata = record { sync_key = 0; prev_sync_key = 0 } in
          let (net', metadata) = send_batches (range batches) none_yet net in
          elim metadata [
            | none ↦ (net', none)
            | some meta ↦
                let group = new_group gm.gid gm.appid (group_members gm.members []) in
                (
                  record net' { out = net'.out ++ Effect.pushed gm.appid group group_message ∷ [] },
                  some meta,
                )
          ]
