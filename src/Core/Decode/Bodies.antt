-- ===== src/Core/Decode/Bodies.antt =====
-- The decoders of the bodies that hold messages, and `Message.FromData`. `receive` stands for
-- `ReceiveMessage`: a reader to a message and what is left of the reader.
use im_service.Prelude.{ℕ, zero, suc, ◌+◌, ◌*◌, none, some, length, take, ltb, ◌==◌, if◌then◌else◌}
use im_service.Prelude.Bytes.{Bytes, read_be, neg16, neg32}
use im_service.Core.Body.{Message, Body, Nested, Messages}
use im_service.Core.Command.{Kind, VersionKind, message_creators, vmessage_creators}
use im_service.Core.Decode.Fields.{
  Outcome, ok, refused, panic, ◌>>=◌, read_authentication_token, read_integer, read_rt_message,
  read_im_message, read_message_ack, read_customer_message, read_voip_control, read_app_user_id,
  read_app_room_id, read_group_sync_key, read_metadata, read_subscribe, read_offline1,
  read_offline2, read_offline3, read_offline4, read_group_offline, read_uids, read_pending_group,
  read_app_header,
}

-- The loop of `MessageBatch.FromData`.
unfoldable pub receive_batch : (Bytes → Outcome (Message × Bytes)) → ℕ → Bytes → Outcome Messages
receive_batch receive zero buf = ok Messages.end
receive_batch receive (suc count) buf = do
  (m, rest) ← receive buf
  ms ← receive_batch receive count rest
  ok (Messages.next m ms)

module _ (receive : Bytes → Outcome (Message × Bytes)) where
  -- A message behind its int16 length; `negative` is what becomes of a length below 0.
  unfoldable pub receive_short : Outcome Message → Bytes → Outcome Message
  receive_short negative buf =
      let (l, rest) = read_be 2 0 buf in
      if neg16 l
      then negative
      else if ltb (length rest) l
      then refused
      else do (m, _) ← receive (take l rest); ok m

  -- There is no test of a length below 0: `make([]byte, l)` panics.
  unfoldable pub read_emessage : Bytes → Outcome Body
  read_emessage buff =
      let (msgid, b1) = read_be 8 0 buff in
      let (device_id, b2) = read_be 8 0 b1 in
      if ltb (length buff) 18
      then refused
      else do m ← receive_short panic b2; ok (Body.emessage msgid device_id (Nested.ref m))

  -- `make([]*Message, 0, count)` panics on a count below 0.
  unfoldable pub read_message_batch : Bytes → Outcome Body
  read_message_batch buff =
      let (first_id, b1) = read_be 8 0 buff in
      let (last_id, b2) = read_be 8 0 b1 in
      let (count, b3) = read_be 4 0 b2 in
      if ltb (length buff) 18
      then refused
      else if neg32 count
      then panic
      else do ms ← receive_batch receive count b3; ok (Body.message_batch first_id last_id ms)

  unfoldable pub read_app_message : Bytes → Outcome Body
  read_app_message buff =
      let (header, buf) = read_app_header buff in
      if ltb (length buff) 42
      then refused
      else do m ← receive_short refused buf; ok (Body.app_message header (Nested.ref m))

  unfoldable pub read_batch_push : Bytes → Outcome Body
  read_batch_push buff =
      let (appid, b1) = read_be 8 0 buff in
      let (count, b2) = read_be 2 0 b1 in
      let (receivers, b3) = read_uids count b2 in
      if ltb (length buff) 12
      then refused
      else if ltb (length buff) (8 + 2 + count * 8 + 2)
      then refused
      else do m ← receive_short refused b3; ok (Body.batch_push appid receivers (Nested.ref m))

  unfoldable pub from_data_kind : Kind → Bytes → Outcome Body
  from_data_kind Kind.group_notification buff = ok (Body.group_notification buff)
  from_data_kind Kind.authentication_token buff = do
    a ← read_authentication_token buff
    ok (Body.authentication_token a)
  from_data_kind Kind.rt_message buff = do m ← read_rt_message buff; ok (Body.rt_message m)
  from_data_kind Kind.room buff = do r ← read_integer 8 buff; ok (Body.room r)
  from_data_kind Kind.room_message buff = do m ← read_rt_message buff; ok (Body.room_message m)
  from_data_kind Kind.system_message buff = ok (Body.system_message buff)
  from_data_kind Kind.unread_count buff = do c ← read_integer 4 buff; ok (Body.unread_count c)
  from_data_kind Kind.ignore_message buff = ok Body.ignore_message
  from_data_kind Kind.customer_message buff = do
    m ← read_customer_message buff
    ok (Body.customer_message m)
  from_data_kind Kind.sync_key buff = do k ← read_integer 8 buff; ok (Body.sync_key k)
  from_data_kind Kind.group_sync_key buff = do
    k ← read_group_sync_key buff
    ok (Body.group_sync_key k)
  from_data_kind Kind.metadata buff = do m ← read_metadata buff; ok (Body.metadata m)
  from_data_kind Kind.voip_control buff = do c ← read_voip_control buff; ok (Body.voip_control c)
  from_data_kind Kind.authentication_status buff = do
    s ← read_integer 4 buff
    ok (Body.authentication_status s)
  from_data_kind Kind.offline1 buff = do o ← read_offline1 buff; ok (Body.offline1 o)
  from_data_kind Kind.offline2 buff = do o ← read_offline2 buff; ok (Body.offline2 o)
  from_data_kind Kind.offline3 buff = do o ← read_offline3 buff; ok (Body.offline3 o)
  from_data_kind Kind.offline4 buff = do o ← read_offline4 buff; ok (Body.offline4 o)
  from_data_kind Kind.group_offline buff = do o ← read_group_offline buff; ok (Body.group_offline o)
  from_data_kind Kind.pending_group buff = do g ← read_pending_group buff; ok (Body.pending_group g)
  from_data_kind Kind.sync_cursor buff = do c ← read_integer 8 buff; ok (Body.sync_cursor c)
  from_data_kind Kind.emessage buff = read_emessage buff
  from_data_kind Kind.message_batch buff = read_message_batch buff
  from_data_kind Kind.subscribe buff = do s ← read_subscribe buff; ok (Body.subscribe s)
  from_data_kind Kind.app_user_id buff = do i ← read_app_user_id buff; ok (Body.app_user_id i)
  from_data_kind Kind.app_room_id buff = do i ← read_app_room_id buff; ok (Body.app_room_id i)
  from_data_kind Kind.app_message buff = read_app_message buff
  from_data_kind Kind.batch_push buff = read_batch_push buff

unfoldable pub from_data_version : VersionKind → ℕ → Bytes → Outcome Body
from_data_version VersionKind.message_ack version buff = do
  a ← read_message_ack version buff
  ok (Body.message_ack a)
from_data_version VersionKind.im_message version buff = do
  m ← read_im_message version buff
  ok (Body.im_message m)

-- `Message.FromData`: the body that `buff` gives a message with this command and version. A
-- command with no class has no body, and no bytes.
unfoldable pub from_data : (Bytes → Outcome (Message × Bytes)) → ℕ → ℕ → Bytes → Outcome Body
from_data receive cmd version buff = elim (message_creators cmd) [
  | some kind ↦ from_data_kind receive kind buff
  | none ↦ elim (vmessage_creators cmd) [
    | some kind ↦ from_data_version kind version buff
    | none ↦ if length buff == 0 then ok Body.no_body else refused
  ]
]
