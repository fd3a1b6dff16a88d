-- ===== src/Core/Encode.antt =====
-- `ToData` of each body, `WriteHeader` and `WriteMessage` of core/protocol.go.
use im_service.Prelude.{ℕ, ◌%◌, ◌^◌, List, [], ◌∷◌, ◌++◌, length, ltb, ◌==◌, if◌then◌else◌}
use im_service.Prelude.Bytes.{Bytes, write_be}
use im_service.Core.Body.{
  AuthenticationToken, RtMessage, ImMessage, MessageAck, CustomerMessage, VoipControl, AppUserId,
  AppRoomId, GroupSyncKey, Metadata, OfflineMessage, PendingGroupMessage, SubscribeMessage,
  AppHeader, Message, Body, Nested, Messages, length_messages,
}

-- `l = int8(len(s))`, then `l` and the bytes.
unfoldable pub write_short_string : Bytes → Bytes
write_short_string s = write_be 1 (length s % 2 ^ 8) ++ s

unfoldable pub write_authentication_token : AuthenticationToken → Bytes
unfolding write_short_string
write_authentication_token a =
    write_be 1 a.platform_id ++ (write_short_string a.token ++ write_short_string a.device_id)

unfoldable pub write_rt_message : RtMessage → Bytes
write_rt_message m = write_be 8 m.sender ++ (write_be 8 m.receiver ++ m.content)

unfoldable pub write_im_message_v0 : ImMessage → Bytes
write_im_message_v0 m =
    write_be 8 m.sender ++ (write_be 8 m.receiver ++ (write_be 4 m.msgid ++ m.content))

unfoldable pub write_im_message_v1 : ImMessage → Bytes
write_im_message_v1 m =
    write_be 8 m.sender
    ++ (write_be 8 m.receiver ++ (write_be 4 m.timestamp ++ (write_be 4 m.msgid ++ m.content)))

unfoldable pub write_im_message : ℕ → ImMessage → Bytes
write_im_message version m = if version == 0 then write_im_message_v0 m else write_im_message_v1 m

unfoldable pub write_message_ack : ℕ → MessageAck → Bytes
write_message_ack version a =
    write_be 4 a.seq ++ (if ltb 1 version then write_be 1 a.status else [])

unfoldable pub write_customer_message : CustomerMessage → Bytes
write_customer_message m =
    write_be 8 m.customer_appid
    ++ (write_be 8 m.customer_id
        ++ (write_be 8 m.store_id
            ++ (write_be 8 m.seller_id ++ (write_be 4 m.timestamp ++ m.content))))

unfoldable pub write_voip_control : VoipControl → Bytes
write_voip_control c = write_be 8 c.sender ++ (write_be 8 c.receiver ++ c.content)

unfoldable pub write_app_user_id : AppUserId → Bytes
write_app_user_id i = write_be 8 i.appid ++ write_be 8 i.uid

unfoldable pub write_app_room_id : AppRoomId → Bytes
write_app_room_id i = write_be 8 i.appid ++ write_be 8 i.room_id

unfoldable pub write_group_sync_key : GroupSyncKey → Bytes
write_group_sync_key k = write_be 8 k.group_id ++ write_be 8 k.sync_key

-- With 16 zero bytes of padding.
unfoldable pub write_metadata : Metadata → Bytes
write_metadata m = write_be 8 m.sync_key ++ (write_be 8 m.prev_sync_key ++ write_be 16 0)

unfoldable pub write_offline1 : OfflineMessage → Bytes
write_offline1 o =
    write_be 8 o.appid
    ++ (write_be 8 o.receiver
        ++ (write_be 8 o.msgid ++ (write_be 8 o.device_id ++ write_be 8 o.prev_msgid)))

unfoldable pub write_offline2 : OfflineMessage → Bytes
write_offline2 o =
    write_be 8 o.appid
    ++ (write_be 8 o.receiver
        ++ (write_be 8 o.msgid
            ++ (write_be 8 o.device_id
                ++ (write_be 8 o.prev_msgid ++ write_be 8 o.prev_peer_msgid))))

unfoldable pub write_offline3 : OfflineMessage → Bytes
write_offline3 o =
    write_be 8 o.appid
    ++ (write_be 8 o.receiver
        ++ (write_be 8 o.msgid
            ++ (write_be 8 o.device_id
                ++ (write_be 8 o.prev_msgid
                    ++ (write_be 8 o.prev_peer_msgid ++ write_be 8 o.prev_batch_msgid)))))

unfoldable pub write_offline4 : OfflineMessage → Bytes
write_offline4 o =
    write_be 8 o.appid
    ++ (write_be 8 o.receiver
        ++ (write_be 8 o.msgid
            ++ (write_be 8 o.device_id
                ++ (write_be 8 o.seq_id
                    ++ (write_be 8 o.prev_msgid
                        ++ (write_be 8 o.prev_peer_msgid ++ write_be 8 o.prev_batch_msgid))))))

-- The receiver is written twice.
unfoldable pub write_group_offline : OfflineMessage → Bytes
write_group_offline o =
    write_be 8 o.appid
    ++ (write_be 8 o.receiver
        ++ (write_be 8 o.msgid
            ++ (write_be 8 o.receiver ++ (write_be 8 o.device_id ++ write_be 8 o.prev_msgid))))

-- The loops that write an `int64` for each element.
unfoldable pub write_uids : List ℕ → Bytes
write_uids [] = []
write_uids (u ∷ us) = write_be 8 u ++ write_uids us

unfoldable pub write_pending_group : PendingGroupMessage → Bytes
unfolding write_uids
write_pending_group g =
    write_be 8 g.appid
    ++ (write_be 8 g.sender
        ++ (write_be 8 g.device_id
            ++ (write_be 8 g.gid
                ++ (write_be 4 g.timestamp
                    ++ (write_be 2 (length g.members % 2 ^ 16)
                        ++ (write_uids g.members ++ g.content))))))

unfoldable pub write_subscribe : SubscribeMessage → Bytes
write_subscribe s = write_be 8 s.appid ++ (write_be 8 s.uid ++ write_be 1 s.online)

unfoldable pub write_app_header : AppHeader → Bytes
write_app_header h =
    write_be 8 h.appid
    ++ (write_be 8 h.receiver
        ++ (write_be 8 h.msgid ++ (write_be 8 h.device_id ++ write_be 8 h.timestamp)))

-- `WriteHeader`; its arguments are converted as `WriteMessage` converts them.
unfoldable pub write_header : ℕ → ℕ → ℕ → ℕ → ℕ → Bytes
write_header len seq cmd version flag =
    write_be 4 (len % 2 ^ 32)
    ++ (write_be 4 (seq % 2 ^ 32)
        ++ (write_be 1 (cmd % 2 ^ 8)
            ++ (write_be 1 (version % 2 ^ 8) ++ (write_be 1 (flag % 2 ^ 8) ++ write_be 1 0))))

-- `l int16 = int16(len(msg_buf))`, then `l` and the message.
unfoldable pub write_short_message : Bytes → Bytes
write_short_message buf = write_be 2 (length buf % 2 ^ 16) ++ buf

unfoldable mutual
  unfolding write_authentication_token write_rt_message write_im_message write_message_ack
      write_customer_message write_voip_control write_app_user_id write_app_room_id
      write_group_sync_key write_metadata write_offline1 write_offline2 write_offline3
      write_offline4 write_group_offline write_pending_group write_subscribe write_app_header
      write_header write_short_message

  -- `WriteMessage`, on top of an empty buffer.
  pub write_message : Message → Bytes
  write_message (Message.message cmd seq version flag body meta) =
      let data_bytes = to_data version body in
      write_header (length data_bytes) seq cmd version flag ++ data_bytes

  -- `Message.ToData`.
  pub to_data : ℕ → Body → Bytes
  to_data version Body.no_body = []
  to_data version (Body.group_notification s) = s
  to_data version (Body.authentication_token a) = write_authentication_token a
  to_data version (Body.authentication_status s) = write_be 4 s
  to_data version (Body.rt_message m) = write_rt_message m
  to_data version (Body.room r) = write_be 8 r
  to_data version (Body.room_message m) = write_rt_message m
  to_data version (Body.system_message s) = s
  to_data version (Body.unread_count c) = write_be 4 c
  to_data version Body.ignore_message = []
  to_data version (Body.customer_message m) = write_customer_message m
  to_data version (Body.sync_key k) = write_be 8 k
  to_data version (Body.group_sync_key k) = write_group_sync_key k
  to_data version (Body.metadata m) = write_metadata m
  to_data version (Body.voip_control c) = write_voip_control c
  to_data version (Body.message_ack a) = write_message_ack version a
  to_data version (Body.im_message m) = write_im_message version m
  to_data version (Body.offline1 o) = write_offline1 o
  to_data version (Body.offline2 o) = write_offline2 o
  to_data version (Body.offline3 o) = write_offline3 o
  to_data version (Body.offline4 o) = write_offline4 o
  to_data version (Body.group_offline o) = write_group_offline o
  to_data version (Body.pending_group g) = write_pending_group g
  to_data version (Body.sync_cursor c) = write_be 8 c
  to_data version (Body.emessage msgid device_id n) =
      in_front (write_be 8 msgid ++ write_be 8 device_id) n
  to_data version (Body.message_batch first_id last_id ms) =
      write_be 8 first_id
      ++ (write_be 8 last_id ++ (write_be 4 (length_messages ms % 2 ^ 32) ++ write_messages ms))
  to_data version (Body.subscribe s) = write_subscribe s
  to_data version (Body.app_user_id i) = write_app_user_id i
  to_data version (Body.app_room_id i) = write_app_room_id i
  to_data version (Body.app_message h n) = in_front (write_app_header h) n
  to_data version (Body.batch_push appid receivers n) =
      in_front
        (write_be 8 appid ++ (write_be 2 (length receivers % 2 ^ 16) ++ write_uids receivers)) n

  -- The fields `front` and then the message, or no bytes at all if the message is nil.
  pub in_front : Bytes → Nested → Bytes
  in_front front Nested.nil = []
  in_front front (Nested.ref m) = front ++ write_short_message (write_message m)

  pub write_messages : Messages → Bytes
  write_messages Messages.end = []
  write_messages (Messages.next m ms) = write_message m ++ write_messages ms
