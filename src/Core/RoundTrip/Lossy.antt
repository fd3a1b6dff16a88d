-- ===== src/Core/RoundTrip/Lossy.antt =====
-- The bodies that do not carry all their fields, or carry strings and lists behind their length.
use im_service.Prelude.{
  ℕ, ◌+◌, ◌%◌, ◌^◌, ◌≤◌, ◌<◌, ◌≡◌, refl, sym, ap, ◌∙◌, true, [], ◌++◌, arith, length, take, ltb,
  le→ltb, lt→leb, if◌then◌else◌, take-append, drop-append, length-append, ◌==◌, append-nil,
  append_assoc,
}
use im_service.Prelude.Bytes.{
  Bytes, write_be, read8, read4, read1, read8_end, read4_end, read1_end, length-write_be-append,
  lengths,
}
use im_service.Core.Body.{
  AuthenticationToken, ImMessage, MessageAck, VoipControl, OfflineMessage, AppHeader,
}
use im_service.Core.RoundTrip.Fields.{
  IsInt64, IsInt32, IsByte, IsImMessage, IsOfflineMessage, long_enough, drop16, drop20,
}
use im_service.Core.Encode.{
  write_im_message_v0, write_message_ack, write_voip_control, write_offline1, write_offline2,
  write_offline3, write_group_offline, write_short_string, write_authentication_token,
  write_app_header,
}
use im_service.Core.Decode.{
  ok, read_integer, read_im_message_v0, read_message_ack, read_voip_control, read_offline1,
  read_offline2, read_offline3, read_group_offline, read_short_string, read_authentication_token,
  read_app_header,
}

eq_num : (a b : ℕ) → a ≡ b → (a == b) ≡ true
eq_num a b h = ground arith

pub read_integer8-write : (n : ℕ) → IsInt64 n → read_integer 8 (write_be 8 n) ≡ ok n
unfolding read_integer
read_integer8-write n h = simp (long_enough 8 (write_be 8 n) (omega lengths), read8_end n 0 h)

pub read_integer4-write : (n : ℕ) → IsInt32 n → read_integer 4 (write_be 4 n) ≡ ok n
unfolding read_integer
read_integer4-write n h = simp (long_enough 4 (write_be 4 n) (omega lengths), read4_end n 0 h)

-- Version 0 of a message has no timestamp.
pub read_im_message_v0-write :
    (m : ImMessage)
    → IsImMessage m
    → read_im_message_v0 (write_im_message_v0 m) ≡ ok (record m { timestamp = 0 })
unfolding read_im_message_v0 write_im_message_v0
read_im_message_v0-write m h = simp (
  long_enough 20 (write_im_message_v0 m) (omega lengths),
  read8 m.sender 0 h.sender,
  read8 m.receiver 0 h.receiver,
  read4 m.msgid 0 h.msgid,
  drop20 m.sender m.receiver m.msgid 0 0 m.content,
)

pub record IsMessageAck (a : MessageAck) : Type 0 where
  pub seq : IsInt32 a.seq
  pub status : IsByte a.status

-- The status is sent from version 2 on.
pub read_message_ack-write :
    (version : ℕ) (a : MessageAck)
    → IsMessageAck a
    → read_message_ack version (write_message_ack version a)
      ≡ ok (record a { status = if ltb 1 version then a.status else 0 })
unfolding read_message_ack write_message_ack
read_message_ack-write version a h = ground (
  arith,
  read4 a.seq 0 h.seq (write_be 1 a.status),
  read4 a.seq 0 h.seq [],
  read1_end a.status 0 h.status,
)

pub record IsVoipControl (c : VoipControl) : Type 0 where
  pub sender : IsInt64 c.sender
  pub receiver : IsInt64 c.receiver
  pub content : 1 ≤ length c.content

pub read_voip_control-write :
    (c : VoipControl) → IsVoipControl c → read_voip_control (write_voip_control c) ≡ ok c
unfolding read_voip_control write_voip_control
read_voip_control-write c h = simp (
  lt→leb (length (write_voip_control c)) 16 (omega (lengths, h.content)),
  front,
  read8 c.sender 0 h.sender,
  read8_end c.receiver 0 h.receiver,
  drop16 c.sender c.receiver 0 0 0 c.content,
)
  where
    front :
        take 16 (write_be 8 c.sender ++ (write_be 8 c.receiver ++ c.content))
        ≡ write_be 8 c.sender ++ write_be 8 c.receiver
    front =
        ap (take 16) (sym (append_assoc (write_be 8 c.sender) (write_be 8 c.receiver) c.content))
        ∙ take-append (write_be 8 c.sender ++ write_be 8 c.receiver) c.content 16 (omega lengths)

-- The older queue entries do not carry the newer fields.
pub read_offline1-write :
    (o : OfflineMessage)
    → IsOfflineMessage o
    → read_offline1 (write_offline1 o)
      ≡ ok (record o { seq_id = 0; prev_peer_msgid = o.prev_msgid; prev_batch_msgid = 0 })
unfolding read_offline1 write_offline1
read_offline1-write o h = simp (
  long_enough 32 (write_offline1 o) (omega lengths),
  eq_num (length (write_offline1 o)) 40 (omega lengths),
  read8 o.appid 0 h.appid,
  read8 o.receiver 0 h.receiver,
  read8 o.msgid 0 h.msgid,
  read8 o.device_id 0 h.device_id,
  read8_end o.prev_msgid 0 h.prev_msgid,
)

pub read_offline2-write :
    (o : OfflineMessage)
    → IsOfflineMessage o
    → read_offline2 (write_offline2 o) ≡ ok (record o { seq_id = 0; prev_batch_msgid = 0 })
unfolding read_offline2 write_offline2
read_offline2-write o h = simp (
  long_enough 48 (write_offline2 o) (omega lengths),
  read8 o.appid 0 h.appid,
  read8 o.receiver 0 h.receiver,
  read8 o.msgid 0 h.msgid,
  read8 o.device_id 0 h.device_id,
  read8 o.prev_msgid 0 h.prev_msgid,
  read8_end o.prev_peer_msgid 0 h.prev_peer_msgid,
)

pub read_offline3-write :
    (o : OfflineMessage)
    → IsOfflineMessage o
    → read_offline3 (write_offline3 o) ≡ ok (record o { seq_id = 0 })
unfolding read_offline3 write_offline3
read_offline3-write o h = simp (
  long_enough 56 (write_offline3 o) (omega lengths),
  read8 o.appid 0 h.appid,
  read8 o.receiver 0 h.receiver,
  read8 o.msgid 0 h.msgid,
  read8 o.device_id 0 h.device_id,
  read8 o.prev_msgid 0 h.prev_msgid,
  read8 o.prev_peer_msgid 0 h.prev_peer_msgid,
  read8_end o.prev_batch_msgid 0 h.prev_batch_msgid,
)

pub read_group_offline-write :
    (o : OfflineMessage)
    → IsOfflineMessage o
    → read_group_offline (write_group_offline o)
      ≡ ok (record o { seq_id = 0; prev_peer_msgid = 0; prev_batch_msgid = 0 })
unfolding read_group_offline write_group_offline
read_group_offline-write o h = simp (
  long_enough 40 (write_group_offline o) (omega lengths),
  eq_num (length (write_group_offline o)) 48 (omega lengths),
  read8 o.appid 0 h.appid,
  read8 o.receiver 0 h.receiver,
  read8 o.msgid 0 h.msgid,
  read8 o.receiver o.receiver h.receiver,
  read8 o.device_id 0 h.device_id,
  read8_end o.prev_msgid 0 h.prev_msgid,
)

-- A string of at most 127 bytes.
read_short_string-write :
    (old : ℕ) (s rest : Bytes)
    → length s < 2 ^ 7
    → read_short_string old (write_short_string s ++ rest) ≡ ok (s, length s, rest)
unfolding read_short_string write_short_string
read_short_string-write old s rest h =
    let fits : length s % 2 ^ 8 ≡ length s = omega arith in
    simp (
      fits,
      append_assoc (write_be 1 (length s)) s rest,
      read1 (length s) old (omega arith),
      lt→leb 0x80 (length s) h,
      le→ltb (length (s ++ rest)) (length s) (omega (arith, length-append s rest)),
      take-append s rest (length s) refl,
      drop-append s rest (length s) refl,
    )

-- Both strings have at most 127 bytes, and one is not empty.
pub record IsAuthenticationToken (a : AuthenticationToken) : Type 0 where
  pub platform_id : IsByte a.platform_id
  pub token : length a.token < 2 ^ 7
  pub device_id : length a.device_id < 2 ^ 7
  pub some_bytes : 1 ≤ length a.token + length a.device_id

length-write_short_string :
    (s rest : Bytes) → length (write_short_string s ++ rest) ≡ 1 + length s + length rest
unfolding write_short_string
length-write_short_string s rest =
    length-append (write_short_string s) rest
    ∙ omega (arith, length-write_be-append 1 (length s % 2 ^ 8) s)

-- An authentication token whose strings have at most 127 bytes, not both of them empty, is decoded
-- as it was encoded.
pub read_authentication_token-write :
    (a : AuthenticationToken)
    → IsAuthenticationToken a
    → read_authentication_token (write_authentication_token a) ≡ ok a
unfolding read_authentication_token write_authentication_token
read_authentication_token-write a h =
    let last : write_short_string a.device_id ++ [] ≡ write_short_string a.device_id =
      append-nil (write_short_string a.device_id) in
    simp (
      lt→leb (length (write_authentication_token a)) 3 (
          omega (
            arith,
            length-write_be-append 1 a.platform_id
                (write_short_string a.token ++ write_short_string a.device_id),
            length-write_short_string a.token (write_short_string a.device_id),
            length-write_short_string a.device_id [],
            ap length last,
            h.some_bytes,
          )),
      read1 a.platform_id 0 h.platform_id,
      read_short_string-write 0 a.token (write_short_string a.device_id) h.token,
      rw last at (read_short_string-write (length a.token) a.device_id [] h.device_id),
    )

pub record IsAppHeader (x : AppHeader) : Type 0 where
  pub appid : IsInt64 x.appid
  pub receiver : IsInt64 x.receiver
  pub msgid : IsInt64 x.msgid
  pub device_id : IsInt64 x.device_id
  pub timestamp : IsInt64 x.timestamp

pub read_app_header-write :
    (x : AppHeader) (rest : Bytes)
    → IsAppHeader x
    → read_app_header (write_app_header x ++ rest) ≡ (record x { prev_msgid = 0 }, rest)
unfolding read_app_header write_app_header
read_app_header-write x rest h = simp (
  append_assoc,
  read8 x.appid 0 h.appid,
  read8 x.receiver 0 h.receiver,
  read8 x.msgid 0 h.msgid,
  read8 x.device_id 0 h.device_id,
  read8 x.timestamp 0 h.timestamp,
)
