-- ===== src/Core/RoundTrip/Nested.antt =====
-- A message is received as it was sent, whatever messages its body holds.
use im_service.Prelude.{
  ℕ, ◌+◌, ◌*◌, ◌%◌, ◌^◌, ◌<◌, ◌≡◌, refl, sym, ap, ◌∙◌, List, [], ◌++◌, All, arith, length, take,
  le→ltb, lt→leb, ◌==◌, if◌then◌else◌, take-append, append_assoc, append-nil,
}
use im_service.Prelude.Bytes.{Bytes, write_be, read8, read2, lengths}
use im_service.Core.Body.{Message, Body, Nested, AppHeader, ImMessage}
use im_service.Core.Encode.{write_short_message, write_uids, write_im_message, write_app_header}
use im_service.Core.Decode.{
  Outcome, ok, refused, panic, receive_short, read_emessage, read_app_message, read_batch_push,
  read_im_message,
}
use im_service.Core.RoundTrip.Fields
use im_service.Core.RoundTrip.Fields.{IsInt64, IsImMessage, long_enough}
use im_service.Core.RoundTrip.Lossy
use im_service.Core.RoundTrip.Lossy.{read_app_header-write, IsAppHeader}
use im_service.Core.RoundTrip.Counted.{read_uids-write, length-write_uids}

abbrev pub Receive : Type 0
Receive = Bytes → Outcome (Message × Bytes)

pub read_im_message-write :
    (v : ℕ) (m : ImMessage)
    → IsImMessage m
    → read_im_message v (write_im_message v m)
      ≡ ok (if v == 0 then record m { timestamp = 0 } else m)
unfolding read_im_message write_im_message
read_im_message-write v m h =
    ground (arith, Lossy.read_im_message_v0-write m h, Fields.read_im_message_v1-write m h)

pub length-write_short_message :
    (front : Bytes) → length (write_short_message front) ≡ 2 + length front
unfolding write_short_message
length-write_short_message front = omega lengths

pub length-write_app_header :
    (x : AppHeader) (rest : Bytes) → length (write_app_header x ++ rest) ≡ 40 + length rest
unfolding write_app_header
length-write_app_header x rest = simp append_assoc (omega lengths)

module _ (receive : Receive) where
  pub receive_short-write :
      (negative : Outcome Message) (front : Bytes) (m : Message)
      → length front < 2 ^ 15
      → receive (front ++ []) ≡ ok (m, [])
      → receive_short receive negative (write_short_message front) ≡ ok m
  unfolding receive_short write_short_message
  receive_short-write negative front m h e =
      let fits : length front % 2 ^ 16 ≡ length front = omega arith in
      let whole : take (length front) front ≡ front =
        ap (take (length front)) (sym (append-nil front))
        ∙ take-append front [] (length front) refl in
      simp (
        fits,
        read2 (length front) 0 (omega arith) front,
        lt→leb 0x8000 (length front) h,
        le→ltb (length front) (length front) (omega arith),
        whole,
        rw append-nil at e,
      )

  pub read_emessage-write :
      (msgid device_id : ℕ) (front : Bytes) (m : Message)
      → IsInt64 msgid
      → IsInt64 device_id
      → length front < 2 ^ 15
      → receive (front ++ []) ≡ ok (m, [])
      → read_emessage receive
          ((write_be 8 msgid ++ write_be 8 device_id) ++ write_short_message front)
        ≡ ok (Body.emessage msgid device_id (Nested.ref m))
  unfolding read_emessage
  read_emessage-write msgid device_id front m hi hd h e =
      let tail : Bytes = write_short_message front in
      let total : length (write_be 8 msgid ++ (write_be 8 device_id ++ tail)) ≡ 18 + length front =
        omega (lengths, length-write_short_message front) in
      simp (
        append_assoc (write_be 8 msgid) (write_be 8 device_id) tail,
        long_enough 18 (write_be 8 msgid ++ (write_be 8 device_id ++ tail)) (omega (arith, total)),
        read8 msgid 0 hi,
        read8 device_id 0 hd,
        receive_short-write panic front m h e,
      )

  pub read_app_message-write :
      (x : AppHeader) (front : Bytes) (m : Message)
      → IsAppHeader x
      → length front < 2 ^ 15
      → receive (front ++ []) ≡ ok (m, [])
      → read_app_message receive (write_app_header x ++ write_short_message front)
        ≡ ok (Body.app_message (record x { prev_msgid = 0 }) (Nested.ref m))
  unfolding read_app_message
  read_app_message-write x front m hx h e =
      let tail : Bytes = write_short_message front in
      simp (
        long_enough 42 (write_app_header x ++ tail)
            (omega (arith, length-write_app_header x tail, length-write_short_message front)),
        read_app_header-write x tail hx,
        receive_short-write refused front m h e,
      )

  pub read_batch_push-write :
      (appid : ℕ) (receivers : List ℕ) (front : Bytes) (m : Message)
      → IsInt64 appid
      → length receivers < 2 ^ 16
      → All IsInt64 receivers
      → length front < 2 ^ 15
      → receive (front ++ []) ≡ ok (m, [])
      → read_batch_push receive (
          (write_be 8 appid ++ (write_be 2 (length receivers % 2 ^ 16) ++ write_uids receivers))
          ++ write_short_message front)
        ≡ ok (Body.batch_push appid receivers (Nested.ref m))
  unfolding read_batch_push
  read_batch_push-write appid receivers front m ha hr hu h e =
      let n = length receivers in
      let fits : n % 2 ^ 16 ≡ n = omega arith in
      let tail : Bytes = write_short_message front in
      let whole : Bytes = write_be 8 appid ++ (write_be 2 n ++ (write_uids receivers ++ tail)) in
      let total : length whole ≡ 12 + n * 8 + length front =
        omega (lengths, length-write_uids receivers tail, length-write_short_message front) in
      simp (
        fits,
        append_assoc (write_be 8 appid) (write_be 2 n ++ write_uids receivers) tail,
        append_assoc (write_be 2 n) (write_uids receivers) tail,
        read8 appid 0 ha,
        read2 n 0 hr,
        read_uids-write receivers tail hu,
        long_enough 12 whole (omega (arith, total)),
        le→ltb (length whole) (8 + 2 + n * 8 + 2) (omega (arith, total)),
        receive_short-write refused front m h e,
      )
