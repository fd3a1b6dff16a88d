-- ===== src/Im/GroupMessageDeliver/Records.antt =====
-- The records of the file of pending messages.
use im_service.Prelude.{
  ℕ, ◌+◌, ◌-◌, ◌*◌, ◌%◌, ◌^◌, ◌≤◌, ◌<◌, ◌≡◌, refl, ap, ◌∙◌, none, [], ◌∷◌, ◌++◌, List, length,
  le→ltb, lt→leb, arith, length-append, drop-append, append_assoc,
}
use im_service.Prelude.Bytes.{Bytes, write_be, read4, read4_end, extend32, lengths}
use im_service.Core.Body.{Message, Body, PendingGroupMessage}
use im_service.Core.Command.{message_creators, msg_pending_group_message}
use im_service.Core.Encode.{write_message, to_data}
use im_service.Core.Decode.{ok, receive_storage_message}
use im_service.Core.RoundTrip.Counted.{IsPendingGroup}
use im_service.Core.RoundTrip.Sent.{received}
use im_service.Core.RoundTrip.Whole.{receive_storage_message-write, length-write_message}
use im_service.Im.GroupMessageDeliver.Defs.{
  magic, read_pending_message, pending_record, read_latest_message_id,
}

-- The message that a client's group message becomes.
abbrev pub pending_message : PendingGroupMessage → Message
pending_message g = Message.message msg_pending_group_message 0 0 0 (Body.pending_group g) none

-- Fields that fit their types, at most 4091 members, and less than 1 MB.
abbrev pub IsPending : PendingGroupMessage → Type 0
IsPending g = IsPendingGroup g × (length (write_message (pending_message g)) < 12 + 1024 * 1024)

abbrev pub record_of : PendingGroupMessage → Bytes
record_of g = pending_record (pending_message g)

-- The records of messages, in order.
unfoldable pub records_of : List PendingGroupMessage → Bytes
records_of [] = []
records_of (g ∷ gs) = record_of g ++ records_of gs

received-pending : (g : PendingGroupMessage) → received (pending_message g) ≡ pending_message g
unfolding received extend32
received-pending g = refl

-- The end of the file is a length and the magic.
latest-end :
    (a : Bytes) (n : ℕ)
    → n < 2 ^ 31
    → 32 < length a
    → read_latest_message_id (a ++ (write_be 4 n ++ write_be 4 magic))
      ≡ ok ((length a + 2 ^ 65 - n - 8) % 2 ^ 64)
unfolding read_latest_message_id extend32
latest-end a n hn ha =
    let end : Bytes = write_be 4 n ++ write_be 4 magic in
    let l : length (a ++ end) - 8 ≡ length a = omega (lengths, length-append a end) in
    simp (
      l,
      drop-append a end (length a) refl,
      read4 n 0 (omega arith),
      read4_end magic 0 (omega arith),
      lt→leb (length a) 32 ha,
      lt→leb 0x8000_0000 n hn,
    )

module _ (g : PendingGroupMessage) (h : IsPending g) where
  pub read-pending :
      (rest : Bytes)
      → receive_storage_message (write_message (pending_message g) ++ rest)
        ≡ ok (pending_message g, rest)
  unfolding message_creators
  read-pending rest =
      receive_storage_message-write (pending_message g) rest (omega arith, omega arith, (refl, h.0))
        h.1
      ∙ ap (λ m. ok (m, rest)) (received-pending g)

  abbrev len : ℕ
  len = (12 + length (to_data 0 (Body.pending_group g))) % 2 ^ 32

  len-eq : len ≡ length (write_message (pending_message g))
  len-eq =
      let e = length-write_message msg_pending_group_message 0 0 0 (Body.pending_group g) none in
      omega (arith, e, h.1)

  pub length-record_of : length (record_of g) ≡ 16 + length (write_message (pending_message g))
  unfolding pending_record
  length-record_of = omega (
    lengths,
    length-append (write_message (pending_message g)) (write_be 4 len ++ write_be 4 magic),
  )

  -- The record of a message is read back as the message, whatever follows it in the file.
  pub read_pending_message-record :
      (rest : Bytes) → read_pending_message (record_of g ++ rest) ≡ ok (pending_message g, rest)
  unfolding read_pending_message pending_record
  read_pending_message-record rest =
      let w = write_message (pending_message g) in
      let m4 = write_be 4 magic in
      let l4 = write_be 4 len in
      let end : Bytes = l4 ++ (m4 ++ rest) in
      simp (
        append_assoc m4 (l4 ++ (w ++ (l4 ++ m4))) rest,
        append_assoc l4 (w ++ (l4 ++ m4)) rest,
        append_assoc w (l4 ++ m4) rest,
        append_assoc l4 m4 rest,
        le→ltb (length (m4 ++ (l4 ++ (w ++ end)))) 4 (omega lengths),
        read4 magic 0 (omega arith),
        le→ltb (length (l4 ++ (w ++ end))) 4 (omega lengths),
        read4 len 0 (omega arith),
        read-pending end,
        le→ltb (length end) 4 (omega lengths),
        read4 len len (omega arith),
        le→ltb (length (m4 ++ rest)) 4 (omega lengths),
        read4 magic magic (omega arith),
      )

  -- The id of the last message is found from the end of the file.
  pub read_latest_message_id-record :
      (front : Bytes)
      → 32 ≤ length front
      → length (front ++ record_of g) < 2 ^ 63
      → read_latest_message_id (front ++ record_of g) ≡ ok (length front)
  unfolding pending_record
  read_latest_message_id-record front hf hl =
      let w = write_message (pending_message g) in
      let m4 = write_be 4 magic in
      let l4 = write_be 4 len in
      let a = front ++ (m4 ++ (l4 ++ w)) in
      let l : length a ≡ length front + (8 + length w) =
        omega (lengths, length-append front (m4 ++ (l4 ++ w))) in
      let whole : front ++ (m4 ++ (l4 ++ (w ++ (l4 ++ m4)))) ≡ a ++ (l4 ++ m4) =
        simp append_assoc in
      ap read_latest_message_id whole
      ∙ latest-end a len (omega (arith, len-eq, h.1)) (omega (arith, l))
      ∙ ap ok (omega (arith, l, len-eq, h.1, hl, length-append front (record_of g)))
