-- ===== src/Core/RoundTrip/Fields.antt =====
-- Each body without a message inside is read back as it was written, if each integer fits its type.
use im_service.Prelude.{ℕ, ◌^◌, ◌≤◌, ◌<◌, ◌≡◌, refl, ◌∙◌, false, ◌++◌, length, drop, ltb, le→ltb}
use im_service.Prelude.Bytes.{
  Bytes, write_be, read8, read4, read8_end, read1_end, drop-write_be, lengths,
}
use im_service.Core.Body.{
  RtMessage, ImMessage, CustomerMessage, AppUserId, AppRoomId, GroupSyncKey, Metadata,
  OfflineMessage, SubscribeMessage,
}
use im_service.Core.Encode.{
  write_rt_message, write_im_message_v1, write_customer_message, write_app_user_id,
  write_app_room_id, write_group_sync_key, write_metadata, write_subscribe, write_offline4,
}
use im_service.Core.Decode.{
  ok, read_rt_message, read_im_message_v1, read_customer_message, read_app_user_id,
  read_app_room_id, read_group_sync_key, read_metadata, read_subscribe, read_offline4,
}

abbrev pub IsInt64 : ℕ → Type 0
IsInt64 n = n < 2 ^ 64

abbrev pub IsInt32 : ℕ → Type 0
IsInt32 n = n < 2 ^ 32

abbrev pub IsByte : ℕ → Type 0
IsByte n = n < 2 ^ 8

-- The contents that follow the integers of a body.
module _ (a b c d e : ℕ) (rest : Bytes) where
  pub drop16 : drop 16 (write_be 8 a ++ (write_be 8 b ++ rest)) ≡ rest
  unfolding drop
  drop16 = drop-write_be 8 a 8 16 _ refl ∙ drop-write_be 8 b 0 8 _ refl

  pub drop20 : drop 20 (write_be 8 a ++ (write_be 8 b ++ (write_be 4 c ++ rest))) ≡ rest
  unfolding drop
  drop20 =
      drop-write_be 8 a 12 20 _ refl ∙ drop-write_be 8 b 4 12 _ refl ∙ drop-write_be 4 c 0 4 _ refl

  pub drop24 :
      drop 24 (write_be 8 a ++ (write_be 8 b ++ (write_be 4 c ++ (write_be 4 d ++ rest)))) ≡ rest
  unfolding drop
  drop24 =
      drop-write_be 8 a 16 24 _ refl
      ∙ drop-write_be 8 b 8 16 _ refl
      ∙ drop-write_be 4 c 4 8 _ refl
      ∙ drop-write_be 4 d 0 4 _ refl

  pub drop36 :
      drop 36 (
        write_be 8 a
        ++ (write_be 8 b ++ (write_be 8 c ++ (write_be 8 d ++ (write_be 4 e ++ rest)))))
      ≡ rest
  unfolding drop
  drop36 =
      drop-write_be 8 a 28 36 _ refl
      ∙ drop-write_be 8 b 20 28 _ refl
      ∙ drop-write_be 8 c 12 20 _ refl
      ∙ drop-write_be 8 d 4 12 _ refl
      ∙ drop-write_be 4 e 0 4 _ refl

-- An encoding of at least `n` bytes passes the test of its length.
pub long_enough : (n : ℕ) (buff : Bytes) → n ≤ length buff → ltb (length buff) n ≡ false
long_enough n buff h = le→ltb (length buff) n h

pub record IsRtMessage (m : RtMessage) : Type 0 where
  pub sender : IsInt64 m.sender
  pub receiver : IsInt64 m.receiver

pub read_rt_message-write :
    (m : RtMessage) → IsRtMessage m → read_rt_message (write_rt_message m) ≡ ok m
unfolding read_rt_message write_rt_message
read_rt_message-write m h = simp (
  long_enough 16 (write_rt_message m) (omega lengths),
  read8 m.sender 0 h.sender,
  read8 m.receiver 0 h.receiver,
  drop16 m.sender m.receiver 0 0 0 m.content,
)

pub record IsImMessage (m : ImMessage) : Type 0 where
  pub sender : IsInt64 m.sender
  pub receiver : IsInt64 m.receiver
  pub timestamp : IsInt32 m.timestamp
  pub msgid : IsInt32 m.msgid

pub read_im_message_v1-write :
    (m : ImMessage) → IsImMessage m → read_im_message_v1 (write_im_message_v1 m) ≡ ok m
unfolding read_im_message_v1 write_im_message_v1
read_im_message_v1-write m h = simp (
  long_enough 24 (write_im_message_v1 m) (omega lengths),
  read8 m.sender 0 h.sender,
  read8 m.receiver 0 h.receiver,
  read4 m.timestamp 0 h.timestamp,
  read4 m.msgid 0 h.msgid,
  drop24 m.sender m.receiver m.timestamp m.msgid 0 m.content,
)

pub record IsCustomerMessage (m : CustomerMessage) : Type 0 where
  pub customer_appid : IsInt64 m.customer_appid
  pub customer_id : IsInt64 m.customer_id
  pub store_id : IsInt64 m.store_id
  pub seller_id : IsInt64 m.seller_id
  pub timestamp : IsInt32 m.timestamp

pub read_customer_message-write :
    (m : CustomerMessage)
    → IsCustomerMessage m
    → read_customer_message (write_customer_message m) ≡ ok m
unfolding read_customer_message write_customer_message
read_customer_message-write m h = simp (
  long_enough 36 (write_customer_message m) (omega lengths),
  read8 m.customer_appid 0 h.customer_appid,
  read8 m.customer_id 0 h.customer_id,
  read8 m.store_id 0 h.store_id,
  read8 m.seller_id 0 h.seller_id,
  read4 m.timestamp 0 h.timestamp,
  drop36 m.customer_appid m.customer_id m.store_id m.seller_id m.timestamp m.content,
)

pub record IsAppUserId (m : AppUserId) : Type 0 where
  pub appid : IsInt64 m.appid
  pub uid : IsInt64 m.uid

pub read_app_user_id-write :
    (m : AppUserId) → IsAppUserId m → read_app_user_id (write_app_user_id m) ≡ ok m
unfolding read_app_user_id write_app_user_id
read_app_user_id-write m h = simp (
  long_enough 16 (write_app_user_id m) (omega lengths),
  read8 m.appid 0 h.appid,
  read8_end m.uid 0 h.uid,
)

pub record IsAppRoomId (m : AppRoomId) : Type 0 where
  pub appid : IsInt64 m.appid
  pub room_id : IsInt64 m.room_id

pub read_app_room_id-write :
    (m : AppRoomId) → IsAppRoomId m → read_app_room_id (write_app_room_id m) ≡ ok m
unfolding read_app_room_id write_app_room_id
read_app_room_id-write m h = simp (
  long_enough 16 (write_app_room_id m) (omega lengths),
  read8 m.appid 0 h.appid,
  read8_end m.room_id 0 h.room_id,
)

pub record IsGroupSyncKey (m : GroupSyncKey) : Type 0 where
  pub group_id : IsInt64 m.group_id
  pub sync_key : IsInt64 m.sync_key

pub read_group_sync_key-write :
    (m : GroupSyncKey) → IsGroupSyncKey m → read_group_sync_key (write_group_sync_key m) ≡ ok m
unfolding read_group_sync_key write_group_sync_key
read_group_sync_key-write m h = simp (
  long_enough 16 (write_group_sync_key m) (omega lengths),
  read8 m.group_id 0 h.group_id,
  read8_end m.sync_key 0 h.sync_key,
)

pub record IsMetadata (m : Metadata) : Type 0 where
  pub sync_key : IsInt64 m.sync_key
  pub prev_sync_key : IsInt64 m.prev_sync_key

pub read_metadata-write : (m : Metadata) → IsMetadata m → read_metadata (write_metadata m) ≡ ok m
unfolding read_metadata write_metadata
read_metadata-write m h = simp (
  long_enough 32 (write_metadata m) (omega lengths),
  read8 m.sync_key 0 h.sync_key,
  read8 m.prev_sync_key 0 h.prev_sync_key,
)

pub record IsSubscribeMessage (m : SubscribeMessage) : Type 0 where
  pub appid : IsInt64 m.appid
  pub uid : IsInt64 m.uid
  pub online : IsByte m.online

pub read_subscribe-write :
    (m : SubscribeMessage) → IsSubscribeMessage m → read_subscribe (write_subscribe m) ≡ ok m
unfolding read_subscribe write_subscribe
read_subscribe-write m h = simp (
  long_enough 17 (write_subscribe m) (omega lengths),
  read8 m.appid 0 h.appid,
  read8 m.uid 0 h.uid,
  read1_end m.online 0 h.online,
)

pub record IsOfflineMessage (m : OfflineMessage) : Type 0 where
  pub appid : IsInt64 m.appid
  pub receiver : IsInt64 m.receiver
  pub msgid : IsInt64 m.msgid
  pub device_id : IsInt64 m.device_id
  pub seq_id : IsInt64 m.seq_id
  pub prev_msgid : IsInt64 m.prev_msgid
  pub prev_peer_msgid : IsInt64 m.prev_peer_msgid
  pub prev_batch_msgid : IsInt64 m.prev_batch_msgid

pub read_offline4-write :
    (m : OfflineMessage) → IsOfflineMessage m → read_offline4 (write_offline4 m) ≡ ok m
unfolding read_offline4 write_offline4
read_offline4-write m h = simp (
  long_enough 64 (write_offline4 m) (omega lengths),
  read8 m.appid 0 h.appid,
  read8 m.receiver 0 h.receiver,
  read8 m.msgid 0 h.msgid,
  read8 m.device_id 0 h.device_id,
  read8 m.seq_id 0 h.seq_id,
  read8 m.prev_msgid 0 h.prev_msgid,
  read8 m.prev_peer_msgid 0 h.prev_peer_msgid,
  read8_end m.prev_batch_msgid 0 h.prev_batch_msgid,
)
