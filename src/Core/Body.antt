-- ===== src/Core/Body.antt =====
-- core/message.go, core/storage_message.go and core/route_message.go: the message and its bodies.
-- An integer field is the number of its bit pattern, a string the list of its bytes.
use im_service.Prelude.{ℕ, zero, suc, List, Option}
use im_service.Prelude.Bytes.{Bytes}

pub record AuthenticationToken : Type 0 where
  pub token : Bytes
  pub platform_id : ℕ
  pub device_id : Bytes

pub record RtMessage : Type 0 where
  pub sender : ℕ
  pub receiver : ℕ
  pub content : Bytes

pub record ImMessage : Type 0 where
  pub sender : ℕ
  pub receiver : ℕ
  pub timestamp : ℕ
  pub msgid : ℕ
  pub content : Bytes

pub record MessageAck : Type 0 where
  pub seq : ℕ
  pub status : ℕ

pub record CustomerMessage : Type 0 where
  pub customer_appid : ℕ
  pub customer_id : ℕ
  pub store_id : ℕ
  pub seller_id : ℕ
  pub timestamp : ℕ
  pub content : Bytes

pub record VoipControl : Type 0 where
  pub sender : ℕ
  pub receiver : ℕ
  pub content : Bytes

pub record AppUserId : Type 0 where
  pub appid : ℕ
  pub uid : ℕ

pub record AppRoomId : Type 0 where
  pub appid : ℕ
  pub room_id : ℕ

pub record GroupSyncKey : Type 0 where
  pub group_id : ℕ
  pub sync_key : ℕ

pub record Metadata : Type 0 where
  pub sync_key : ℕ
  pub prev_sync_key : ℕ

-- `off.Msgid` names the message itself, and the `prev` fields chain the queue of a receiver.
pub record OfflineMessage : Type 0 where
  pub appid : ℕ
  pub receiver : ℕ
  pub msgid : ℕ
  pub device_id : ℕ
  pub seq_id : ℕ
  pub prev_msgid : ℕ
  pub prev_peer_msgid : ℕ
  pub prev_batch_msgid : ℕ

pub record PendingGroupMessage : Type 0 where
  pub appid : ℕ
  pub sender : ℕ
  pub device_id : ℕ
  pub gid : ℕ
  pub timestamp : ℕ
  pub members : List ℕ
  pub content : Bytes

pub record SubscribeMessage : Type 0 where
  pub appid : ℕ
  pub uid : ℕ
  pub online : ℕ

-- The fields of an `AppMessage` in front of its message.
pub record AppHeader : Type 0 where
  pub appid : ℕ
  pub receiver : ℕ
  pub msgid : ℕ
  pub prev_msgid : ℕ
  pub device_id : ℕ
  pub timestamp : ℕ

-- `Message`, what its `Body interface{}` may hold, a `*Message` that may be nil, and a `[]*Message`.
-- A message is `message cmd seq version flag body meta`.
mutual
  pub data Message : Type 0 where
    message : ℕ → ℕ → ℕ → ℕ → Body → Option Metadata → Message

  pub data Body : Type 0 where
    no_body : Body
    group_notification : Bytes → Body
    authentication_token : AuthenticationToken → Body
    authentication_status : ℕ → Body
    rt_message : RtMessage → Body
    room : ℕ → Body
    room_message : RtMessage → Body
    system_message : Bytes → Body
    unread_count : ℕ → Body
    ignore_message : Body
    customer_message : CustomerMessage → Body
    sync_key : ℕ → Body
    group_sync_key : GroupSyncKey → Body
    metadata : Metadata → Body
    voip_control : VoipControl → Body
    message_ack : MessageAck → Body
    im_message : ImMessage → Body
    offline1 : OfflineMessage → Body
    offline2 : OfflineMessage → Body
    offline3 : OfflineMessage → Body
    offline4 : OfflineMessage → Body
    group_offline : OfflineMessage → Body
    pending_group : PendingGroupMessage → Body
    sync_cursor : ℕ → Body
    emessage : ℕ → ℕ → Nested → Body
    message_batch : ℕ → ℕ → Messages → Body
    subscribe : SubscribeMessage → Body
    app_user_id : AppUserId → Body
    app_room_id : AppRoomId → Body
    app_message : AppHeader → Nested → Body
    batch_push : ℕ → List ℕ → Nested → Body

  pub data Nested : Type 0 where
    nil : Nested
    ref : Message → Nested

  pub data Messages : Type 0 where
    end : Messages
    next : Message → Messages → Messages

abbrev pub cmd : Message → ℕ
cmd (message c s v f b m) = c

abbrev pub flag : Message → ℕ
flag (message c s v f b m) = f

abbrev pub body : Message → Body
body (message c s v f b m) = b

abbrev pub version : Message → ℕ
version (message c s v f b m) = v

-- `len(batch.Msgs)`.
abbrev pub length_messages : Messages → ℕ
length_messages end = zero
length_messages (next m ms) = suc (length_messages ms)
