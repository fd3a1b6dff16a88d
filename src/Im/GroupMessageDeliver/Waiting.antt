-- ===== src/Im/GroupMessageDeliver/Waiting.antt =====
-- Which messages wait, in the file and in the fields, and what a flush does to them.
use im_service.Prelude.{
  ℕ, suc, ◌+◌, ◌-◌, ◌≤◌, ◌<◌, ◌≡◌, refl, sym, ap, ◌∙◌, List, [], ◌∷◌, ◌++◌, Option, none, some,
  length, drop, All, le→leb, lt→leb, arith, length-append, append-nil, append_assoc, drop_all,
}
use im_service.Prelude.Bytes.{Bytes, write_be, lengths}
use im_service.Core.Body.{Message, Metadata, PendingGroupMessage}
use im_service.Core.Decode.{Outcome, ok}
use im_service.Im.GroupMessageDeliver.Defs.{Deliver, save_cursor, do_callback, send_one, send_loop}
use im_service.Im.GroupMessageDeliver.Records.{
  pending_message, IsPending, record_of, records_of, length-record_of, read_pending_message-record,
}

-- `Sent front n`: the part of the file in front of what waits is the header, and `n` is 0, or it ends
-- with the message of id `n`.
pub data Sent : Bytes → ℕ → Type 0 where
  start : {front : Bytes} {n : ℕ} → length front ≡ 32 → n ≡ 0 → Sent front n
  after :
      {front : Bytes} {n : ℕ} (before : Bytes) (g : PendingGroupMessage)
      → IsPending g
      → front ≡ before ++ record_of g
      → 32 ≤ length before
      → n ≡ length before
      → Sent front n

-- The id of the last of messages that stand at `pos` and behind, and `n` if there is none.
unfoldable pub last_id : ℕ → List PendingGroupMessage → ℕ → ℕ
last_id pos [] n = n
last_id pos (g ∷ q) n = last_id (pos + length (record_of g)) q pos

module _ {W : Type 0} where
  -- The messages `q` wait to be sent, in this order.
  pub record Waits (s : Deliver W) (q : List PendingGroupMessage) : Type 0 where
    pub front : Bytes
    pub on_file : s.file ≡ front ++ records_of q
    pub sent : Sent front s.latest_sended_msgid
    pub latest : s.latest_msgid ≡ last_id (length front) q s.latest_sended_msgid
    pub cursor : s.cursor ≡ write_be 8 s.latest_sended_msgid
    pub pending : All IsPending q

pub Sent-lt : {front : Bytes} {n : ℕ} → Sent front n → (n < length front) × (32 ≤ length front)
Sent-lt (Sent.start l e) = omega (arith, l, e)
Sent-lt (Sent.after before g h e l f) =
    omega (arith, ap length e, length-append before (record_of g), length-record_of g h, f, l)

pub length-front :
    (front : Bytes) (g : PendingGroupMessage)
    → length (front ++ record_of g) ≡ length front + length (record_of g)
length-front front g = length-append front (record_of g)

-- The last of the messages that wait stands behind what has been sent.
pub last_id-lt :
    (pos : ℕ) (g : PendingGroupMessage) (q : List PendingGroupMessage) (n : ℕ)
    → n < pos
    → All IsPending (g ∷ q)
    → n < last_id pos (g ∷ q) n
unfolding last_id
last_id-lt pos g [] n h p = h
last_id-lt pos g (g' ∷ q) n h (p, ps) =
    let l = length-record_of g p in
    let next = pos + length (record_of g) in
    omega (arith, last_id-lt next g' q pos (omega (arith, l)) ps, last_id_any next g' q pos n)
  where
    last_id_any :
        (pos : ℕ) (g : PendingGroupMessage) (q : List PendingGroupMessage) (n m : ℕ)
        → last_id pos (g ∷ q) n ≡ last_id pos (g ∷ q) m
    last_id_any pos g q n m = refl

-- An integer of 8 bytes over another.
pub overwrite : (a b : ℕ) → write_be 8 a ++ drop 8 (write_be 8 b) ≡ write_be 8 a
overwrite a b = rw (drop_all (write_be 8 b) 8 (omega lengths)) (append-nil (write_be 8 a))

module _ {W : Type 0} where
  do_callback-keeps :
      (n : ℕ) (meta : Metadata) (s : Deliver W)
      → ((do_callback n meta s).file ≡ s.file)
        × ((do_callback n meta s).cursor ≡ s.cursor)
        × ((do_callback n meta s).latest_msgid ≡ s.latest_msgid)
        × ((do_callback n meta s).net ≡ s.net)
  unfolding do_callback
  do_callback-keeps n meta s = ground arith

  -- The state after a message has been sent.
  unfoldable pub sent_state : ℕ → Metadata → W → Deliver W → Deliver W
  sent_state msgid meta net s =
      save_cursor
        (record (do_callback msgid meta (record s { net = net })) { latest_sended_msgid = msgid })

  pub sent_state-Waits :
      (meta : Metadata) (net : W) (g : PendingGroupMessage) (q : List PendingGroupMessage)
      (s : Deliver W) (h : Waits s (g ∷ q))
      → Waits (sent_state (length h.front) meta net s) q
  unfolding sent_state save_cursor records_of last_id
  sent_state-Waits meta net g q s h =
      let k = do_callback-keeps (length h.front) meta (record s { net = net }) in
      let l = Sent-lt h.sent in
      record {
        front = h.front ++ record_of g;
        on_file = k.0 ∙ h.on_file ∙ sym (append_assoc h.front (record_of g) (records_of q));
        sent = Sent.after h.front g h.pending.0 refl l.1 refl;
        latest =
            k.2
            ∙ h.latest
            ∙ ap (λ (n : ℕ). last_id n q (length h.front)) (sym (length-front h.front g));
        cursor = rw (k.1, h.cursor) (overwrite (length h.front) s.latest_sended_msgid);
        pending = h.pending.1;
      }

  pub sent_state-front :
      (meta : Metadata) (net : W) (g : PendingGroupMessage) (q : List PendingGroupMessage)
      (s : Deliver W) (h : Waits s (g ∷ q))
      → length (sent_state-Waits meta net g q s h).front ≡ length h.front + length (record_of g)
  unfolding sent_state-Waits
  sent_state-front meta net g q s h = length-front h.front g

  pub sent_state-keeps :
      (n : ℕ) (meta : Metadata) (net : W) (s : Deliver W)
      → ((sent_state n meta net s).net ≡ net)
        × ((sent_state n meta net s).file ≡ s.file)
        × ((sent_state n meta net s).latest_msgid ≡ s.latest_msgid)
  unfolding sent_state save_cursor
  sent_state-keeps n meta net s =
      let k = do_callback-keeps n meta (record s { net = net }) in (k.3, k.0, k.2)

  -- What a flush does to the state of `send` and the messages that wait, up to a failure.
  unfoldable pub drain :
      (PendingGroupMessage → W → W × Option Metadata)
      → List PendingGroupMessage
      → W
      → W × List PendingGroupMessage
  drain send [] net = (net, [])
  drain send (g ∷ q) net =
      let (net', meta) = send g net in
      elim meta [ none ↦ (net', g ∷ q) | some m ↦ drain send q net' ]

  module _ (send : PendingGroupMessage → W → W × Option Metadata) where
    -- A run ends in a state in which the messages wait that `drain` leaves.
    pub record Drained (s : Deliver W) (q : List PendingGroupMessage) (r : Outcome (Deliver W))
        : Type 0 where
      pub state : Deliver W
      pub ends : r ≡ ok state
      pub waits : Waits state (drain send q s.net).1
      pub network : state.net ≡ (drain send q s.net).0
      pub file_kept : state.file ≡ s.file
      pub latest_kept : state.latest_msgid ≡ s.latest_msgid

    pub send_loop-record :
        (fuel pos : ℕ) (g : PendingGroupMessage) (rest : Bytes) (s : Deliver W)
        → IsPending g
        → send_loop send (suc fuel) pos (record_of g ++ rest) s
          ≡ send_one send
              (send_loop send fuel (pos + length (record_of g)) rest)
              pos
              (pending_message g)
              s
    unfolding send_loop
    send_loop-record fuel pos g rest s h =
        let e : length (record_of g ++ rest) - length rest ≡ length (record_of g) =
          omega (arith, length-append (record_of g) rest) in
        rw (read_pending_message-record g h rest, send_loop) (rw e)

    -- What has been sent is passed over.
    pub send_one-sent :
        (next : Deliver W → Outcome (Deliver W)) (pos : ℕ) (m : Message) (s : Deliver W)
        → pos ≤ s.latest_sended_msgid
        → send_one send next pos m s ≡ next s
    unfolding send_one
    send_one-sent next pos m s h = rw (le→leb pos s.latest_sended_msgid h)

    pub send_one-failed :
        (next : Deliver W → Outcome (Deliver W)) (pos : ℕ) (g : PendingGroupMessage) (s : Deliver W)
        → s.latest_sended_msgid < pos
        → (send g s.net).1 ≡ none
        → send_one send next pos (pending_message g) s ≡ ok (record s { net = (send g s.net).0 })
    unfolding send_one
    send_one-failed next pos g s h e = rw (lt→leb pos s.latest_sended_msgid h, e)

    pub send_one-done :
        (next : Deliver W → Outcome (Deliver W)) (pos : ℕ) (g : PendingGroupMessage) (s : Deliver W)
        (meta : Metadata)
        → s.latest_sended_msgid < pos
        → (send g s.net).1 ≡ some meta
        → send_one send next pos (pending_message g) s
          ≡ next (sent_state pos meta (send g s.net).0 s)
    unfolding send_one sent_state
    send_one-done next pos g s meta h e = rw (lt→leb pos s.latest_sended_msgid h, e)
