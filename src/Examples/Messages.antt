-- ===== src/Examples/Messages.antt =====
-- Messages as they are sent, received and stored.
use im_service.Prelude.{
  ℕ, List, zero, suc, ap, ◌+◌, ◌<◌, ◌≡◌, refl, [], ◌∷◌, ◌++◌, none, length, arith, if◌then◌else◌,
}
use im_service.Prelude.Bytes.{Bytes, write_be}
use im_service.Core.Body.{Message, Body, ImMessage, PendingGroupMessage, AuthenticationToken}
use im_service.Core.Command.{msg_im, message_creators, vmessage_creators, external_messages}
use im_service.Core.Encode.{
  write_message, write_im_message_v1, write_pending_group, write_authentication_token,
}
use im_service.Core.Decode.{
  panic, ok, refused, receive_limit, receive_message, receive_client_message, read_pending_group,
  read_authentication_token, receive_storage_sync_message, receive_storage_message,
}
use im_service.Core.RoundTrip.Sent.{IsSendable, received}
use im_service.Core.RoundTrip.Again.{receive_message-again}
use im_service.Core.RoundTrip.Whole.{receive_message-write, receive_client_message-write}
use im_service.Core.RoundTrip.Lossy.{read_authentication_token-write}
use im_service.Core.RoundTrip.Counted.{read_pending_group-write, read_pending_group-write_panic}
use im_service.Core.Total.{Ends, receive_message-Ends}
use im_service.Ims.StorageFile.{read_message, record_bytes}
use im_service.Ims.StorageFile.Stored.{IsStorable, read_message-record}

abbrev pub greeting : ImMessage
greeting = record {
  sender = 11;
  receiver = 12;
  timestamp = 1000;
  msgid = 3;
  content = 104 ∷ 105 ∷ [];
}

abbrev pub hello : Message
hello = Message.message msg_im 7 1 0 (Body.im_message greeting) none

pub hello-IsSendable : IsSendable hello
unfolding message_creators vmessage_creators
hello-IsSendable = (
  omega arith,
  omega arith,
  (
    (refl, refl),
    record {
      sender = omega arith;
      receiver = omega arith;
      timestamp = omega arith;
      msgid = omega arith;
    },
  ),
)

pub hello-is_short : length (write_message hello) < 12 + receive_limit
unfolding write_message write_be write_im_message_v1
hello-is_short = omega arith

pub hello-IsStorable : IsStorable hello
hello-IsStorable = (hello-IsSendable, hello-is_short)

receive_message-write_example :
    receive_message (write_message hello ++ 0 ∷ 1 ∷ []) ≡ ok (received hello, 0 ∷ 1 ∷ [])
receive_message-write_example =
    receive_message-write hello (0 ∷ 1 ∷ []) hello-IsSendable hello-is_short

receive_message-again_example :
    (m : Message) × (receive_message (write_message hello ++ 7 ∷ []) ≡ ok (m, 7 ∷ []))
    × (write_message m ≡ write_message hello)
    × (receive_message (write_message m ++ 7 ∷ []) ≡ ok (m, 7 ∷ []))
receive_message-again_example = receive_message-again hello (7 ∷ []) hello-IsSendable hello-is_short

receive_client_message-write_example :
    receive_client_message (write_message hello ++ [])
    ≡ (if external_messages msg_im then ok (received hello, []) else refused)
receive_client_message-write_example =
    receive_client_message-write hello [] hello-IsSendable hello-is_short

abbrev half : Bytes
half = 0 ∷ 0 ∷ 0 ∷ 9 ∷ 1 ∷ []

receive_message-Ends_example :
    Ends 5 (receive_message half)
    × Ends 5 (receive_client_message half)
    × Ends 5 (receive_storage_sync_message half)
    × Ends 5 (receive_storage_message half)
receive_message-Ends_example = receive_message-Ends half

read_message-record_example :
    read_message (record_bytes hello ++ 1 ∷ []) ≡ ok (received hello, 1 ∷ [])
read_message-record_example = read_message-record hello (1 ∷ []) hello-IsStorable

abbrev to_three : PendingGroupMessage
to_three = record {
  appid = 7;
  sender = 11;
  device_id = 1;
  gid = 90;
  timestamp = 1000;
  members = 11 ∷ 12 ∷ 13 ∷ [];
  content = 104 ∷ 105 ∷ [];
}

read_pending_group-write_example : read_pending_group (write_pending_group to_three) ≡ ok to_three
read_pending_group-write_example = read_pending_group-write to_three (record {
  appid = omega arith;
  sender = omega arith;
  device_id = omega arith;
  gid = omega arith;
  timestamp = omega arith;
  members = (omega arith, (omega arith, (omega arith, tt)));
  count = omega arith;
})

abbrev phone : AuthenticationToken
phone = record { token = 120 ∷ 121 ∷ []; platform_id = 2; device_id = 49 ∷ [] }

read_authentication_token-write_example :
    read_authentication_token (write_authentication_token phone) ≡ ok phone
read_authentication_token-write_example = read_authentication_token-write phone (record {
  platform_id = omega arith;
  token = omega arith;
  device_id = omega arith;
  some_bytes = omega arith;
})

abbrev copies : ℕ → ℕ → List ℕ
copies zero uid = []
copies (suc n) uid = uid ∷ copies n uid

length-copies : (n uid : ℕ) → length (copies n uid) ≡ n
length-copies zero uid = refl
length-copies (suc n) uid = ap suc (length-copies n uid)

-- A message for `n` members.
abbrev to_many : ℕ → PendingGroupMessage
to_many n = record to_three { members = copies n 11 }

-- The least number of members that does not fit.
abbrev too_many : ℕ
too_many = 4092

read_pending_group-write_panic_example :
    read_pending_group (write_pending_group (to_many too_many)) ≡ panic
read_pending_group-write_panic_example =
    read_pending_group-write_panic (to_many too_many) (omega arith) (omega arith) (omega arith)
      (omega arith) (omega arith) (rw (length-copies too_many 11) (omega arith))
      (rw (length-copies too_many 11) (omega arith))
