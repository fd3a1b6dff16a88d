-- ===== src/Core/Decode/Fields.antt =====
-- What a decoder returns, and the decoders of the bodies that hold no other message.
use im_service.Prelude.{
  ℕ, zero, suc, ◌+◌, ◌*◌, ◌%◌, ◌^◌, ◌||◌, ◌&&◌, not, List, [], ◌∷◌, length, take, drop, ltb, leb,
  ◌==◌, if◌then◌else◌,
}
use im_service.Prelude.Bytes.{Bytes, read_be, neg8, neg16}
use im_service.Core.Body.{
  AuthenticationToken, RtMessage, ImMessage, MessageAck, CustomerMessage, VoipControl, AppUserId,
  AppRoomId, GroupSyncKey, Metadata, OfflineMessage, PendingGroupMessage, SubscribeMessage,
  AppHeader,
}

-- `refused` is a result of false or nil, and `panic` is Go's. `stuck` is no result of the program:
-- the fuel ran out.
pub data Outcome {ℓ} (A : Type ℓ) : Type ℓ where
  ok : A → Outcome A
  refused panic stuck : Outcome A

infixl 5 ◌>>=◌
abbrev pub ◌>>=◌ {ℓ κ} : {A : Type ℓ} {B : Type κ} → Outcome A → (A → Outcome B) → Outcome B
ok a >>= f = f a
refused >>= f = refused
panic >>= f = panic
stuck >>= f = stuck

-- `binary.Read(buffer, binary.BigEndian, &l)` for an `l` that is `old`, the test of `l`, and
-- `buffer.Read` of `l` bytes: the string, `l`, and what is left.
unfoldable pub read_short_string : ℕ → Bytes → Outcome (Bytes × ℕ × Bytes)
read_short_string old buf =
    let (l, rest) = read_be 1 old buf in
    if neg8 l || ltb (length rest) l then refused else ok (take l rest, l, drop l rest)

unfoldable pub read_authentication_token : Bytes → Outcome AuthenticationToken
unfolding read_short_string
read_authentication_token buff = if leb (length buff) 3 then refused else do
  let (platform_id, buffer) = read_be 1 0 buff
  (token, l, rest) ← read_short_string 0 buffer
  (device_id, l', rest') ← read_short_string l rest
  ok (record { token = token; platform_id = platform_id; device_id = device_id })

-- The bodies that are one integer of `k` bytes.
unfoldable pub read_integer : ℕ → Bytes → Outcome ℕ
read_integer k buff = if ltb (length buff) k then refused else ok (read_be k 0 buff).0

unfoldable pub read_rt_message : Bytes → Outcome RtMessage
read_rt_message buff =
    let (sender, b1) = read_be 8 0 buff in
    let (receiver, b2) = read_be 8 0 b1 in
    if ltb (length buff) 16
    then refused
    else ok (record { sender = sender; receiver = receiver; content = drop 16 buff })

-- The timestamp is left at 0.
unfoldable pub read_im_message_v0 : Bytes → Outcome ImMessage
read_im_message_v0 buff =
    let (sender, b1) = read_be 8 0 buff in
    let (receiver, b2) = read_be 8 0 b1 in
    let (msgid, b3) = read_be 4 0 b2 in
    if ltb (length buff) 20
    then refused
    else ok (record {
      sender = sender;
      receiver = receiver;
      timestamp = 0;
      msgid = msgid;
      content = drop 20 buff;
    })

unfoldable pub read_im_message_v1 : Bytes → Outcome ImMessage
read_im_message_v1 buff =
    let (sender, b1) = read_be 8 0 buff in
    let (receiver, b2) = read_be 8 0 b1 in
    let (timestamp, b3) = read_be 4 0 b2 in
    let (msgid, b4) = read_be 4 0 b3 in
    if ltb (length buff) 24
    then refused
    else ok (record {
      sender = sender;
      receiver = receiver;
      timestamp = timestamp;
      msgid = msgid;
      content = drop 24 buff;
    })

unfoldable pub read_im_message : ℕ → Bytes → Outcome ImMessage
read_im_message version buff =
    if version == 0 then read_im_message_v0 buff else read_im_message_v1 buff

-- There is no test of the length: on a short buffer the fields stay 0.
unfoldable pub read_message_ack : ℕ → Bytes → Outcome MessageAck
read_message_ack version buff =
    let (seq, b1) = read_be 4 0 buff in
    let (status, b2) = read_be 1 0 b1 in
    ok (record { seq = seq; status = if ltb 1 version then status else 0 })

unfoldable pub read_customer_message : Bytes → Outcome CustomerMessage
read_customer_message buff =
    let (customer_appid, b1) = read_be 8 0 buff in
    let (customer_id, b2) = read_be 8 0 b1 in
    let (store_id, b3) = read_be 8 0 b2 in
    let (seller_id, b4) = read_be 8 0 b3 in
    let (timestamp, b5) = read_be 4 0 b4 in
    if ltb (length buff) 36
    then refused
    else ok (record {
      customer_appid = customer_appid;
      customer_id = customer_id;
      store_id = store_id;
      seller_id = seller_id;
      timestamp = timestamp;
      content = drop 36 buff;
    })

-- The content may not be empty.
unfoldable pub read_voip_control : Bytes → Outcome VoipControl
read_voip_control buff =
    let (sender, b1) = read_be 8 0 (take 16 buff) in
    let (receiver, b2) = read_be 8 0 b1 in
    if leb (length buff) 16
    then refused
    else ok (record { sender = sender; receiver = receiver; content = drop 16 buff })

unfoldable pub read_app_user_id : Bytes → Outcome AppUserId
read_app_user_id buff =
    let (appid, b1) = read_be 8 0 buff in
    let (uid, b2) = read_be 8 0 b1 in
    if ltb (length buff) 16 then refused else ok (record { appid = appid; uid = uid })

unfoldable pub read_app_room_id : Bytes → Outcome AppRoomId
read_app_room_id buff =
    let (appid, b1) = read_be 8 0 buff in
    let (room_id, b2) = read_be 8 0 b1 in
    if ltb (length buff) 16 then refused else ok (record { appid = appid; room_id = room_id })

unfoldable pub read_group_sync_key : Bytes → Outcome GroupSyncKey
read_group_sync_key buff =
    let (group_id, b1) = read_be 8 0 buff in
    let (sync_key, b2) = read_be 8 0 b1 in
    if ltb (length buff) 16
    then refused
    else ok (record { group_id = group_id; sync_key = sync_key })

-- The padding is not read.
unfoldable pub read_metadata : Bytes → Outcome Metadata
read_metadata buff =
    let (sync_key, b1) = read_be 8 0 buff in
    let (prev_sync_key, b2) = read_be 8 0 b1 in
    if ltb (length buff) 32
    then refused
    else ok (record { sync_key = sync_key; prev_sync_key = prev_sync_key })

unfoldable pub read_subscribe : Bytes → Outcome SubscribeMessage
read_subscribe buff =
    let (appid, b1) = read_be 8 0 buff in
    let (uid, b2) = read_be 8 0 b1 in
    let (online, b3) = read_be 1 0 b2 in
    if ltb (length buff) 17
    then refused
    else ok (record { appid = appid; uid = uid; online = online })

-- Old files lack the device id: it is read only at a length of exactly 40.
unfoldable pub read_offline1 : Bytes → Outcome OfflineMessage
read_offline1 buff =
    let (appid, b1) = read_be 8 0 buff in
    let (receiver, b2) = read_be 8 0 b1 in
    let (msgid, b3) = read_be 8 0 b2 in
    let (device_id, b4) = if length buff == 40 then read_be 8 0 b3 else (0, b3) in
    let (prev_msgid, b5) = read_be 8 0 b4 in
    if ltb (length buff) 32
    then refused
    else ok (record {
      appid = appid;
      receiver = receiver;
      msgid = msgid;
      device_id = device_id;
      seq_id = 0;
      prev_msgid = prev_msgid;
      prev_peer_msgid = prev_msgid;
      prev_batch_msgid = 0;
    })

unfoldable pub read_offline2 : Bytes → Outcome OfflineMessage
read_offline2 buff =
    let (appid, b1) = read_be 8 0 buff in
    let (receiver, b2) = read_be 8 0 b1 in
    let (msgid, b3) = read_be 8 0 b2 in
    let (device_id, b4) = read_be 8 0 b3 in
    let (prev_msgid, b5) = read_be 8 0 b4 in
    let (prev_peer_msgid, b6) = read_be 8 0 b5 in
    if ltb (length buff) 48
    then refused
    else ok (record {
      appid = appid;
      receiver = receiver;
      msgid = msgid;
      device_id = device_id;
      seq_id = 0;
      prev_msgid = prev_msgid;
      prev_peer_msgid = prev_peer_msgid;
      prev_batch_msgid = 0;
    })

unfoldable pub read_offline3 : Bytes → Outcome OfflineMessage
read_offline3 buff =
    let (appid, b1) = read_be 8 0 buff in
    let (receiver, b2) = read_be 8 0 b1 in
    let (msgid, b3) = read_be 8 0 b2 in
    let (device_id, b4) = read_be 8 0 b3 in
    let (prev_msgid, b5) = read_be 8 0 b4 in
    let (prev_peer_msgid, b6) = read_be 8 0 b5 in
    let (prev_batch_msgid, b7) = read_be 8 0 b6 in
    if ltb (length buff) 56
    then refused
    else ok (record {
      appid = appid;
      receiver = receiver;
      msgid = msgid;
      device_id = device_id;
      seq_id = 0;
      prev_msgid = prev_msgid;
      prev_peer_msgid = prev_peer_msgid;
      prev_batch_msgid = prev_batch_msgid;
    })

unfoldable pub read_offline4 : Bytes → Outcome OfflineMessage
read_offline4 buff =
    let (appid, b1) = read_be 8 0 buff in
    let (receiver, b2) = read_be 8 0 b1 in
    let (msgid, b3) = read_be 8 0 b2 in
    let (device_id, b4) = read_be 8 0 b3 in
    let (seq_id, b5) = read_be 8 0 b4 in
    let (prev_msgid, b6) = read_be 8 0 b5 in
    let (prev_peer_msgid, b7) = read_be 8 0 b6 in
    let (prev_batch_msgid, b8) = read_be 8 0 b7 in
    if ltb (length buff) 64
    then refused
    else ok (record {
      appid = appid;
      receiver = receiver;
      msgid = msgid;
      device_id = device_id;
      seq_id = seq_id;
      prev_msgid = prev_msgid;
      prev_peer_msgid = prev_peer_msgid;
      prev_batch_msgid = prev_batch_msgid;
    })

-- The receiver is read twice; the device id only at a length of exactly 48.
unfoldable pub read_group_offline : Bytes → Outcome OfflineMessage
read_group_offline buff =
    let (appid, b1) = read_be 8 0 buff in
    let (receiver, b2) = read_be 8 0 b1 in
    let (msgid, b3) = read_be 8 0 b2 in
    let (receiver', b4) = read_be 8 receiver b3 in
    let (device_id, b5) = if length buff == 48 then read_be 8 0 b4 else (0, b4) in
    let (prev_msgid, b6) = read_be 8 0 b5 in
    if ltb (length buff) 40
    then refused
    else ok (record {
      appid = appid;
      receiver = receiver';
      msgid = msgid;
      device_id = device_id;
      seq_id = 0;
      prev_msgid = prev_msgid;
      prev_peer_msgid = 0;
      prev_batch_msgid = 0;
    })

-- The loops that read `count` times an `int64`: the values, and what is left.
unfoldable pub read_uids : ℕ → Bytes → List ℕ × Bytes
read_uids zero buf = ([], buf)
read_uids (suc count) buf =
    let (uid, rest) = read_be 8 0 buf in
    let (uids, rest') = read_uids count rest in (uid ∷ uids, rest')

-- `count` is an int16, and `38+count*8` is computed in that type: it wraps.
unfoldable pub read_pending_group : Bytes → Outcome PendingGroupMessage
unfolding read_uids
read_pending_group buff =
    let (appid, b1) = read_be 8 0 buff in
    let (sender, b2) = read_be 8 0 b1 in
    let (device_id, b3) = read_be 8 0 b2 in
    let (gid, b4) = read_be 8 0 b3 in
    let (timestamp, b5) = read_be 4 0 b4 in
    let (count, b6) = read_be 2 0 b5 in
    let offset = (38 + count * 8) % 2 ^ 16 in
    if ltb (length buff) 38
    then refused
    else if not (neg16 offset) && ltb (length buff) offset
    then refused
    else if neg16 count || neg16 offset
    then panic
    else ok (record {
      appid = appid;
      sender = sender;
      device_id = device_id;
      gid = gid;
      timestamp = timestamp;
      members = (read_uids count b6).0;
      content = drop offset buff;
    })

-- The five integers in front of the message of an `AppMessage`: `PrevMsgid` is not sent.
unfoldable pub read_app_header : Bytes → AppHeader × Bytes
read_app_header buff =
    let (appid, b1) = read_be 8 0 buff in
    let (receiver, b2) = read_be 8 0 b1 in
    let (msgid, b3) = read_be 8 0 b2 in
    let (device_id, b4) = read_be 8 0 b3 in
    let (timestamp, b5) = read_be 8 0 b4 in
    (
      record {
        appid = appid;
        receiver = receiver;
        msgid = msgid;
        prev_msgid = 0;
        device_id = device_id;
        timestamp = timestamp;
      },
      b5,
    )
