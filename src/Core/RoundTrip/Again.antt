-- ===== src/Core/RoundTrip/Again.antt =====
-- What was received is sent on as the same bytes.
use im_service.Prelude.{
  ℕ, suc, ◌+◌, ◌<◌, ◌≡◌, refl, ap, ◌∙◌, ◌++◌, length, arith, Bool-cases, inl, inr, ◌%◌, ◌^◌,
  if◌then◌else◌, ltb, ◌==◌,
}
use im_service.Prelude.Bytes.{Bytes, extend32}
use im_service.Core.Body.{Message, Body, Nested, Messages, length_messages, ImMessage, MessageAck}
use im_service.Core.Encode.{
  write_message, to_data, in_front, write_messages, write_header, write_im_message,
  write_im_message_v0, write_message_ack, write_offline1, write_offline2, write_offline3,
  write_group_offline, write_app_header,
}
use im_service.Core.Decode.{ok, receive_limit, receive_message}
use im_service.Core.RoundTrip.Whole.{receive_message-write}
use im_service.Core.RoundTrip.Sent.{
  IsSendable, received, received_body, received_nested, received_list,
}

extend32_mod : (x : ℕ) → extend32 (x % 2 ^ 32) % 2 ^ 32 ≡ x % 2 ^ 32
unfolding extend32
extend32_mod x = ground arith

write_im_message-timestamp :
    (v : ℕ) (m : ImMessage)
    → write_im_message v (if v == 0 then record m { timestamp = 0 } else m) ≡ write_im_message v m
unfolding write_im_message write_im_message_v0
write_im_message-timestamp v m = elim (Bool-cases (v == 0)) [
  | inl e ↦ rw e refl
  | inr e ↦ rw e refl
]

write_message_ack-status :
    (v : ℕ) (a : MessageAck)
    → write_message_ack v (record a { status = if ltb 1 v then a.status else 0 })
      ≡ write_message_ack v a
unfolding write_message_ack
write_message_ack-status v a = elim (Bool-cases (ltb 1 v)) [ inl e ↦ rw e refl | inr e ↦ rw e refl ]

flag_mod : (f : ℕ) → f % 2 ^ 8 % 2 ^ 8 ≡ f % 2 ^ 8
flag_mod f = omega arith

length_messages-received : (ms : Messages) → length_messages (received_list ms) ≡ length_messages ms
unfolding received
length_messages-received Messages.end = refl
length_messages-received (Messages.next m ms) = ap suc (length_messages-received ms)

mutual
  unfolding write_message received write_header write_offline1 write_offline2 write_offline3
      write_group_offline write_app_header

  same_message : (m : Message) → write_message (received m) ≡ write_message m
  same_message (Message.message c s v f b m) =
      rw (same_body v b, extend32_mod s) (rw (flag_mod f) refl)

  same_body : (v : ℕ) (b : Body) → to_data v (received_body v b) ≡ to_data v b
  same_body v Body.no_body = refl
  same_body v (Body.group_notification s) = refl
  same_body v (Body.authentication_token a) = refl
  same_body v (Body.authentication_status s) = refl
  same_body v (Body.rt_message m) = refl
  same_body v (Body.room r) = refl
  same_body v (Body.room_message m) = refl
  same_body v (Body.system_message s) = refl
  same_body v (Body.unread_count n) = refl
  same_body v Body.ignore_message = refl
  same_body v (Body.customer_message m) = refl
  same_body v (Body.sync_key k) = refl
  same_body v (Body.group_sync_key k) = refl
  same_body v (Body.metadata m) = refl
  same_body v (Body.voip_control x) = refl
  same_body v (Body.offline1 o) = refl
  same_body v (Body.offline2 o) = refl
  same_body v (Body.offline3 o) = refl
  same_body v (Body.offline4 o) = refl
  same_body v (Body.group_offline o) = refl
  same_body v (Body.pending_group g) = refl
  same_body v (Body.sync_cursor x) = refl
  same_body v (Body.subscribe s) = refl
  same_body v (Body.app_user_id i) = refl
  same_body v (Body.app_room_id i) = refl
  same_body v (Body.message_ack a) = write_message_ack-status v a
  same_body v (Body.im_message m) = write_im_message-timestamp v m
  same_body v (Body.emessage msgid device_id n) = same_nested _ n
  same_body v (Body.message_batch first_id last_id ms) =
      rw (length_messages-received ms, same_list ms) refl
  same_body v (Body.app_message h n) = same_nested _ n
  same_body v (Body.batch_push appid receivers n) = same_nested _ n

  same_nested : (front : Bytes) (n : Nested) → in_front front (received_nested n) ≡ in_front front n
  same_nested front Nested.nil = refl
  same_nested front (Nested.ref m) = rw (same_message m) refl

  same_list : (ms : Messages) → write_messages (received_list ms) ≡ write_messages ms
  same_list Messages.end = refl
  same_list (Messages.next m ms) = rw (same_message m, same_list ms) refl

-- The message as it is received is written as the message that was sent.
pub write_message-received : (m : Message) → write_message (received m) ≡ write_message m
write_message-received m = same_message m

-- A sendable message of at most 32 KB that is written is received as some message, what follows it
-- is left, and what was received, with whatever fields it lost, is written as the same bytes and
-- received again as it is.
pub receive_message-again :
    (m : Message) (rest : Bytes)
    → IsSendable m
    → length (write_message m) < 12 + receive_limit
    → (m' : Message) × (receive_message (write_message m ++ rest) ≡ ok (m', rest))
      × (write_message m' ≡ write_message m)
      × (receive_message (write_message m' ++ rest) ≡ ok (m', rest))
receive_message-again m rest h short =
    let once = receive_message-write m rest h short in
    let same = write_message-received m in
    (received m, once, same, ap (λ bytes. receive_message (bytes ++ rest)) same ∙ once)
