-- ===== src/Core/RoundTrip/Sent.antt =====
-- The messages that can be sent, and what of them arrives.
use im_service.Prelude.{
  ℕ, ◌+◌, ◌%◌, ◌^◌, ◌<◌, ◌≡◌, none, some, All, length, ltb, ◌==◌, if◌then◌else◌,
}
use im_service.Prelude.Bytes.{extend32}
use im_service.Core.Body.{Message, Body, Nested, Messages, length_messages}
use im_service.Core.Command.{Kind, VersionKind, message_creators, vmessage_creators}
use im_service.Core.Encode.{write_message}
use im_service.Core.Decode.{receive_limit}
use im_service.Core.RoundTrip.Fields.{
  IsInt64, IsInt32, IsRtMessage, IsImMessage, IsCustomerMessage, IsAppUserId, IsAppRoomId,
  IsGroupSyncKey, IsMetadata, IsSubscribeMessage, IsOfflineMessage,
}
use im_service.Core.RoundTrip.Lossy.{
  IsMessageAck, IsVoipControl, IsAuthenticationToken, IsAppHeader,
}
use im_service.Core.RoundTrip.Counted.{IsPendingGroup}

abbrev Carries : ℕ → Kind → Type 0
Carries c k = message_creators c ≡ some k

abbrev CarriesVersion : ℕ → VersionKind → Type 0
CarriesVersion c k = (message_creators c ≡ none) × (vmessage_creators c ≡ some k)

-- `IsSendable m`: the command and the version are bytes, the body is of the class that the command
-- stands for, its integers fit their types, and a message inside another is sendable and short.
abbrev mutual
  pub IsSendable : Message → Type 0
  IsSendable (Message.message c s v f b m) = (c < 2 ^ 8) × (v < 2 ^ 8) × IsSendableBody c v b

  pub IsSendableBody : ℕ → ℕ → Body → Type 0
  IsSendableBody c v Body.no_body = (message_creators c ≡ none) × (vmessage_creators c ≡ none)
  IsSendableBody c v (Body.group_notification s) = Carries c Kind.group_notification
  IsSendableBody c v (Body.authentication_token a) =
      Carries c Kind.authentication_token × IsAuthenticationToken a
  IsSendableBody c v (Body.authentication_status s) =
      Carries c Kind.authentication_status × IsInt32 s
  IsSendableBody c v (Body.rt_message m) = Carries c Kind.rt_message × IsRtMessage m
  IsSendableBody c v (Body.room r) = Carries c Kind.room × IsInt64 r
  IsSendableBody c v (Body.room_message m) = Carries c Kind.room_message × IsRtMessage m
  IsSendableBody c v (Body.system_message s) = Carries c Kind.system_message
  IsSendableBody c v (Body.unread_count n) = Carries c Kind.unread_count × IsInt32 n
  IsSendableBody c v Body.ignore_message = Carries c Kind.ignore_message
  IsSendableBody c v (Body.customer_message m) =
      Carries c Kind.customer_message × IsCustomerMessage m
  IsSendableBody c v (Body.sync_key k) = Carries c Kind.sync_key × IsInt64 k
  IsSendableBody c v (Body.group_sync_key k) = Carries c Kind.group_sync_key × IsGroupSyncKey k
  IsSendableBody c v (Body.metadata m) = Carries c Kind.metadata × IsMetadata m
  IsSendableBody c v (Body.voip_control x) = Carries c Kind.voip_control × IsVoipControl x
  IsSendableBody c v (Body.message_ack a) =
      CarriesVersion c VersionKind.message_ack × IsMessageAck a
  IsSendableBody c v (Body.im_message m) = CarriesVersion c VersionKind.im_message × IsImMessage m
  IsSendableBody c v (Body.offline1 o) = Carries c Kind.offline1 × IsOfflineMessage o
  IsSendableBody c v (Body.offline2 o) = Carries c Kind.offline2 × IsOfflineMessage o
  IsSendableBody c v (Body.offline3 o) = Carries c Kind.offline3 × IsOfflineMessage o
  IsSendableBody c v (Body.offline4 o) = Carries c Kind.offline4 × IsOfflineMessage o
  IsSendableBody c v (Body.group_offline o) = Carries c Kind.group_offline × IsOfflineMessage o
  IsSendableBody c v (Body.pending_group g) = Carries c Kind.pending_group × IsPendingGroup g
  IsSendableBody c v (Body.sync_cursor x) = Carries c Kind.sync_cursor × IsInt64 x
  IsSendableBody c v (Body.emessage msgid device_id n) =
      Carries c Kind.emessage × IsInt64 msgid × IsInt64 device_id × IsSendableNested n
  IsSendableBody c v (Body.message_batch first_id last_id ms) =
      Carries c Kind.message_batch
      × IsInt64 first_id
      × IsInt64 last_id
      × (length_messages ms < 2 ^ 31)
      × IsSendableList ms
  IsSendableBody c v (Body.subscribe s) = Carries c Kind.subscribe × IsSubscribeMessage s
  IsSendableBody c v (Body.app_user_id i) = Carries c Kind.app_user_id × IsAppUserId i
  IsSendableBody c v (Body.app_room_id i) = Carries c Kind.app_room_id × IsAppRoomId i
  IsSendableBody c v (Body.app_message h n) =
      Carries c Kind.app_message × IsAppHeader h × IsSendableNested n
  IsSendableBody c v (Body.batch_push appid receivers n) =
      Carries c Kind.batch_push
      × IsInt64 appid
      × (length receivers < 2 ^ 16)
      × All IsInt64 receivers
      × IsSendableNested n

  -- Its length is an int16.
  pub IsSendableNested : Nested → Type 0
  IsSendableNested Nested.nil = ⊥
  IsSendableNested (Nested.ref m) = IsSendable m × (length (write_message m) < 2 ^ 15)

  -- Each body is within the limit of `ReceiveMessage`.
  pub IsSendableList : Messages → Type 0
  IsSendableList Messages.end = Unit {0}
  IsSendableList (Messages.next m ms) =
      IsSendable m × (length (write_message m) < 12 + receive_limit) × IsSendableList ms

-- `received m` is `m` as its receiver sees it: the sequence number is an int32, the flag is a byte,
-- the metadata is not sent, and some bodies lose fields.
unfoldable mutual
  pub received : Message → Message
  received (Message.message c s v f b m) =
      Message.message c (extend32 (s % 2 ^ 32)) v (f % 2 ^ 8) (received_body v b) none

  pub received_body : ℕ → Body → Body
  received_body v Body.no_body = Body.no_body
  received_body v (Body.message_ack a) =
      Body.message_ack (record a { status = if ltb 1 v then a.status else 0 })
  received_body v (Body.im_message m) =
      Body.im_message (if v == 0 then record m { timestamp = 0 } else m)
  received_body v (Body.offline1 o) =
      Body.offline1 (record o { seq_id = 0; prev_peer_msgid = o.prev_msgid; prev_batch_msgid = 0 })
  received_body v (Body.offline2 o) = Body.offline2 (record o { seq_id = 0; prev_batch_msgid = 0 })
  received_body v (Body.offline3 o) = Body.offline3 (record o { seq_id = 0 })
  received_body v (Body.group_offline o) =
      Body.group_offline (record o { seq_id = 0; prev_peer_msgid = 0; prev_batch_msgid = 0 })
  received_body v (Body.emessage msgid device_id n) =
      Body.emessage msgid device_id (received_nested n)
  received_body v (Body.message_batch first_id last_id ms) =
      Body.message_batch first_id last_id (received_list ms)
  received_body v (Body.app_message h n) =
      Body.app_message (record h { prev_msgid = 0 }) (received_nested n)
  received_body v (Body.batch_push appid receivers n) =
      Body.batch_push appid receivers (received_nested n)
  received_body v b = b

  pub received_nested : Nested → Nested
  received_nested Nested.nil = Nested.nil
  received_nested (Nested.ref m) = Nested.ref (received m)

  pub received_list : Messages → Messages
  received_list Messages.end = Messages.end
  received_list (Messages.next m ms) = Messages.next (received m) (received_list ms)
