-- ===== src/Core/RoundTrip/Whole.antt =====
-- A message is received as it was sent, whatever messages its body holds.
use im_service.Prelude.{
  ℕ, zero, suc, ◌+◌, ◌*◌, ◌%◌, ◌^◌, ◌≤◌, ◌<◌, ◌≡◌, refl, ◌∙◌, Bool, true, false, Option, inl, inr,
  Bool-cases, [], ◌++◌, arith, length, if◌then◌else◌, length-append, lt→leb,
}
use im_service.Prelude.Bytes.{Bytes, write_be, read8, read4, lengths}
use im_service.Core.Body.{Message, Body, Nested, Messages, Metadata, length_messages, cmd}
use im_service.Core.Command.{Kind, VersionKind, external_messages}
use im_service.Core.Encode.{
  write_header, write_message, to_data, in_front, write_messages, write_short_message, write_uids,
  write_app_header,
}
use im_service.Core.Decode.{
  Outcome, ok, refused, from_data, from_data_kind, from_data_version, receive_limit_message,
  receive_limit, receive_message, receive_client_message, receive_storage_message, receive_batch,
  read_message_batch,
}
use im_service.Core.RoundTrip.Fields
use im_service.Core.RoundTrip.Fields.{IsInt64, long_enough}
use im_service.Core.RoundTrip.Lossy
use im_service.Core.RoundTrip.Counted
use im_service.Core.RoundTrip.Sent.{
  IsSendable, IsSendableBody, IsSendableList, received, received_body, received_nested,
  received_list,
}
use im_service.Core.RoundTrip.Frame.{
  length-write_header, receive-frame, refuse-frame, from_data-kind, from_data-version,
  from_data-no_body,
}
use im_service.Core.RoundTrip.Nested.{
  read_im_message-write, read_emessage-write, read_app_message-write, read_batch_push-write,
  length-write_short_message,
}

abbrev receive : ℕ → Bytes → Outcome (Message × Bytes)
receive fuel = receive_limit_message fuel receive_limit false

length-in_front :
    (front : Bytes) (m : Message)
    → length (in_front front (Nested.ref m)) ≡ length front + 2 + length (write_message m)
unfolding in_front
length-in_front front m =
    length-append front (write_short_message (write_message m))
    ∙ omega (arith, length-write_short_message (write_message m))

pub length-write_message :
    (c s v f : ℕ) (b : Body) (m : Option Metadata)
    → length (write_message (Message.message c s v f b m)) ≡ 12 + length (to_data v b)
unfolding write_message
length-write_message c s v f b m =
    length-append (write_header (length (to_data v b)) s c v f) (to_data v b)
    ∙ omega (arith, length-write_header (length (to_data v b)) s c v f)

-- The counted messages of a batch, behind its three integers.
read_message_batch-write :
    (receive : Bytes → Outcome (Message × Bytes)) (first_id last_id : ℕ) (ms ms' : Messages)
    → IsInt64 first_id
    → IsInt64 last_id
    → length_messages ms < 2 ^ 31
    → receive_batch receive (length_messages ms) (write_messages ms) ≡ ok ms'
    → read_message_batch receive (
        write_be 8 first_id
        ++ (write_be 8 last_id ++ (write_be 4 (length_messages ms % 2 ^ 32) ++ write_messages ms)))
      ≡ ok (Body.message_batch first_id last_id ms')
unfolding read_message_batch
read_message_batch-write receive first_id last_id ms ms' hf hl hn e =
    let n = length_messages ms in
    let fits : n % 2 ^ 32 ≡ n = omega arith in
    let whole : Bytes =
      write_be 8 first_id ++ (write_be 8 last_id ++ (write_be 4 n ++ write_messages ms)) in
    simp (
      fits,
      long_enough 18 whole (omega lengths),
      read8 first_id 0 hf,
      read8 last_id 0 hl,
      read4 n 0 (omega arith),
      lt→leb 0x8000_0000 n hn,
      e,
    )

length-write_message_pos : (m : Message) → 12 ≤ length (write_message m)
length-write_message_pos (Message.message c s v f b meta) =
    omega (arith, length-write_message c s v f b meta)

mutual
  unfolding to_data in_front write_message write_messages received received_body received_nested
      received_list from_data_kind from_data_version receive_batch

  receive-write :
      (fuel limit : ℕ) (external : Bool) (m : Message) (rest : Bytes)
      → IsSendable m
      → length (write_message m) < fuel
      → length (write_message m) < 12 + limit
      → limit ≤ 2 ^ 31
      → (external ≡ true → external_messages (cmd m) ≡ true)
      → receive_limit_message fuel limit external (write_message m ++ rest) ≡ ok (received m, rest)
  receive-write zero limit external m rest hs hf hl hm he = absurd (omega arith)
  receive-write (suc fuel) limit external (Message.message c s v f b m) rest (hc, hv, hb) hf hl hm
        he =
      let total = length-write_message c s v f b m in
      receive-frame fuel limit external s c v f (to_data v b) rest hc hv (omega (arith, total)) hm
        (received_body v b) he (from_data-write fuel c v b hb (omega (arith, total)))

  from_data-write :
      (fuel c v : ℕ) (b : Body)
      → IsSendableBody c v b
      → length (to_data v b) + 12 < suc fuel
      → from_data (receive fuel) c v (to_data v b) ≡ ok (received_body v b)
  from_data-write fuel c v Body.no_body e hf = from_data-no_body (receive fuel) c v e
  from_data-write fuel c v (Body.group_notification s) e hf =
      from_data-kind (receive fuel) c v _ Kind.group_notification e
  from_data-write fuel c v (Body.system_message s) e hf =
      from_data-kind (receive fuel) c v _ Kind.system_message e
  from_data-write fuel c v Body.ignore_message e hf =
      from_data-kind (receive fuel) c v _ Kind.ignore_message e
  from_data-write fuel c v (Body.authentication_token a) (e, h) hf =
      from_data-kind (receive fuel) c v _ Kind.authentication_token e
      ∙ rw (Lossy.read_authentication_token-write a h)
  from_data-write fuel c v (Body.authentication_status s) (e, h) hf =
      from_data-kind (receive fuel) c v _ Kind.authentication_status e
      ∙ rw (Lossy.read_integer4-write s h)
  from_data-write fuel c v (Body.rt_message m) (e, h) hf =
      from_data-kind (receive fuel) c v _ Kind.rt_message e ∙ rw (Fields.read_rt_message-write m h)
  from_data-write fuel c v (Body.room r) (e, h) hf =
      from_data-kind (receive fuel) c v _ Kind.room e ∙ rw (Lossy.read_integer8-write r h)
  from_data-write fuel c v (Body.room_message m) (e, h) hf =
      from_data-kind (receive fuel) c v _ Kind.room_message e
      ∙ rw (Fields.read_rt_message-write m h)
  from_data-write fuel c v (Body.unread_count n) (e, h) hf =
      from_data-kind (receive fuel) c v _ Kind.unread_count e ∙ rw (Lossy.read_integer4-write n h)
  from_data-write fuel c v (Body.customer_message m) (e, h) hf =
      from_data-kind (receive fuel) c v _ Kind.customer_message e
      ∙ rw (Fields.read_customer_message-write m h)
  from_data-write fuel c v (Body.sync_key k) (e, h) hf =
      from_data-kind (receive fuel) c v _ Kind.sync_key e ∙ rw (Lossy.read_integer8-write k h)
  from_data-write fuel c v (Body.group_sync_key k) (e, h) hf =
      from_data-kind (receive fuel) c v _ Kind.group_sync_key e
      ∙ rw (Fields.read_group_sync_key-write k h)
  from_data-write fuel c v (Body.metadata m) (e, h) hf =
      from_data-kind (receive fuel) c v _ Kind.metadata e ∙ rw (Fields.read_metadata-write m h)
  from_data-write fuel c v (Body.voip_control x) (e, h) hf =
      from_data-kind (receive fuel) c v _ Kind.voip_control e
      ∙ rw (Lossy.read_voip_control-write x h)
  from_data-write fuel c v (Body.offline1 o) (e, h) hf =
      from_data-kind (receive fuel) c v _ Kind.offline1 e ∙ rw (Lossy.read_offline1-write o h)
  from_data-write fuel c v (Body.offline2 o) (e, h) hf =
      from_data-kind (receive fuel) c v _ Kind.offline2 e ∙ rw (Lossy.read_offline2-write o h)
  from_data-write fuel c v (Body.offline3 o) (e, h) hf =
      from_data-kind (receive fuel) c v _ Kind.offline3 e ∙ rw (Lossy.read_offline3-write o h)
  from_data-write fuel c v (Body.offline4 o) (e, h) hf =
      from_data-kind (receive fuel) c v _ Kind.offline4 e ∙ rw (Fields.read_offline4-write o h)
  from_data-write fuel c v (Body.group_offline o) (e, h) hf =
      from_data-kind (receive fuel) c v _ Kind.group_offline e
      ∙ rw (Lossy.read_group_offline-write o h)
  from_data-write fuel c v (Body.pending_group g) (e, h) hf =
      from_data-kind (receive fuel) c v _ Kind.pending_group e
      ∙ rw (Counted.read_pending_group-write g h)
  from_data-write fuel c v (Body.sync_cursor x) (e, h) hf =
      from_data-kind (receive fuel) c v _ Kind.sync_cursor e ∙ rw (Lossy.read_integer8-write x h)
  from_data-write fuel c v (Body.subscribe s) (e, h) hf =
      from_data-kind (receive fuel) c v _ Kind.subscribe e ∙ rw (Fields.read_subscribe-write s h)
  from_data-write fuel c v (Body.app_user_id i) (e, h) hf =
      from_data-kind (receive fuel) c v _ Kind.app_user_id e
      ∙ rw (Fields.read_app_user_id-write i h)
  from_data-write fuel c v (Body.app_room_id i) (e, h) hf =
      from_data-kind (receive fuel) c v _ Kind.app_room_id e
      ∙ rw (Fields.read_app_room_id-write i h)
  from_data-write fuel c v (Body.message_ack a) (e, h) hf =
      from_data-version (receive fuel) c v _ VersionKind.message_ack e
      ∙ rw (Lossy.read_message_ack-write v a h)
  from_data-write fuel c v (Body.im_message m) (e, h) hf =
      from_data-version (receive fuel) c v _ VersionKind.im_message e
      ∙ rw (read_im_message-write v m h)
  from_data-write fuel c v (Body.emessage msgid device_id (Nested.ref m)) (e, hi, hd, (hs, hl)) hf =
      from_data-kind (receive fuel) c v _ Kind.emessage e
      ∙ read_emessage-write (receive fuel) msgid device_id (write_message m) (received m) hi hd hl (
          receive-write fuel receive_limit false m [] hs
            (omega (arith, length-in_front (write_be 8 msgid ++ write_be 8 device_id) m))
            (omega arith) (omega arith) (λ x. cc))
  from_data-write fuel c v (Body.emessage msgid device_id Nested.nil) (e, hi, hd, h) hf = absurd h
  from_data-write fuel c v (Body.message_batch first_id last_id ms) (e, hi, hl, hn, hs) hf =
      from_data-kind (receive fuel) c v _ Kind.message_batch e
      ∙ read_message_batch-write (receive fuel) first_id last_id ms (received_list ms) hi hl hn
          (receive_batch-write fuel ms hs (omega lengths))
  from_data-write fuel c v (Body.app_message h Nested.nil) (e, hx, n) hf = absurd n
  from_data-write fuel c v (Body.app_message h (Nested.ref m)) (e, hx, (hs, hl)) hf =
      from_data-kind (receive fuel) c v _ Kind.app_message e
      ∙ read_app_message-write (receive fuel) h (write_message m) (received m) hx hl (
          receive-write fuel receive_limit false m [] hs
            (omega (arith, length-in_front (write_app_header h) m)) (omega arith) (omega arith)
            (λ x. cc))
  from_data-write fuel c v (Body.batch_push appid receivers Nested.nil) (e, ha, hr, hu, n) hf =
      absurd n
  from_data-write fuel c v (Body.batch_push appid receivers (Nested.ref m))
        (e, ha, hr, hu, (hs, hl)) hf =
      from_data-kind (receive fuel) c v _ Kind.batch_push e
      ∙ read_batch_push-write (receive fuel) appid receivers (write_message m) (received m) ha hr hu
          hl
          (receive-write fuel receive_limit false m [] hs
            (omega (
              arith,
              length-in_front
                  (write_be 8 appid
                    ++ (write_be 2 (length receivers % 2 ^ 16) ++ write_uids receivers))
                  m,
            ))
            (omega arith) (omega arith) (λ x. cc))

  receive_batch-write :
      (fuel : ℕ) (ms : Messages)
      → IsSendableList ms
      → length (write_messages ms) < fuel
      → receive_batch (receive fuel) (length_messages ms) (write_messages ms)
        ≡ ok (received_list ms)
  receive_batch-write fuel Messages.end h hf = refl
  receive_batch-write fuel (Messages.next m ms) (hs, hl, hr) hf = simp (
    receive-write fuel receive_limit false m (write_messages ms) hs
        (omega (arith, length-append (write_message m) (write_messages ms))) hl (omega arith)
        (λ x. cc),
    receive_batch-write fuel ms hr (
        omega
          (arith, length-append (write_message m) (write_messages ms), length-write_message_pos m)),
  )

refuse_client :
    (m : Message) (rest : Bytes)
    → IsSendable m
    → length (write_message m) < 12 + receive_limit
    → external_messages (cmd m) ≡ false
    → receive_client_message (write_message m ++ rest) ≡ refused
unfolding receive_client_message write_message
refuse_client (Message.message c s v f b meta) rest (hc, hv, hb) h e =
    refuse-frame _ receive_limit true s c v f (to_data v b) rest hc hv
      (omega (arith, length-write_message c s v f b meta)) (omega arith) refl e

module _ (m : Message) (rest : Bytes) (sendable : IsSendable m) where
  -- A sendable message of at most 32 KB, followed by anything on a connection between servers or in
  -- a file, is received as `received` says, and what follows it is left.
  pub receive_message-write :
      length (write_message m) < 12 + receive_limit
      → receive_message (write_message m ++ rest) ≡ ok (received m, rest)
  unfolding receive_message
  receive_message-write h =
      receive-write (suc (length (write_message m ++ rest))) receive_limit false m rest sendable
        (omega (arith, length-append (write_message m) rest)) h (omega arith) (λ x. cc)

  -- The same with the limit of 1 MB of the files of pending messages.
  pub receive_storage_message-write :
      length (write_message m) < 12 + 1024 * 1024
      → receive_storage_message (write_message m ++ rest) ≡ ok (received m, rest)
  unfolding receive_storage_message
  receive_storage_message-write h =
      receive-write (suc (length (write_message m ++ rest))) (1024 * 1024) false m rest sendable
        (omega (arith, length-append (write_message m) rest)) h (omega arith) (λ x. cc)

  -- A sendable message of at most 32 KB that comes from a client is received as `received` says
  -- exactly if its command is one that clients may send; any other command is refused, whatever the
  -- body.
  pub receive_client_message-write :
      length (write_message m) < 12 + receive_limit
      → receive_client_message (write_message m ++ rest)
        ≡ (if external_messages (cmd m) then ok (received m, rest) else refused)
  unfolding receive_client_message
  receive_client_message-write h = elim (Bool-cases (external_messages (cmd m))) [
    | inl e ↦ rw e (
        receive-write (suc (length (write_message m ++ rest))) receive_limit true m rest sendable
          (omega (arith, length-append (write_message m) rest)) h (omega arith) (λ x. e))
    | inr e ↦ rw e (refuse_client m rest sendable h e)
  ]
