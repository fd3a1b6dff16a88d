-- ===== src/Im/GroupMessageDeliver/Restart.antt =====
-- A restart finds what waits in the two files.
use im_service.Prelude.{
  ℕ, ◌+◌, ◌-◌, ◌^◌, ◌≤◌, ◌<◌, ◌≡◌, refl, sym, ap, ◌∙◌, List, [], ◌∷◌, ◌++◌, length, All, le→ltb,
  ==_ne, le→leb, arith, length-append, append-nil, append_assoc,
}
use im_service.Prelude.Bytes.{Bytes, write_be, read_be-write_be_end, lengths}
use im_service.Core.Body.{PendingGroupMessage}
use im_service.Core.Decode.{ok}
use im_service.Im.GroupMessageDeliver.Defs.{
  Deliver, pending_header, open_pending, open_cursor, read_latest_message_id, new_deliver,
}
use im_service.Im.GroupMessageDeliver.Records.{
  IsPending, record_of, records_of, read_latest_message_id-record,
}
use im_service.Im.GroupMessageDeliver.Waiting.{Sent, Sent-lt, last_id, Waits}

-- The file ends with its header, or with the record of the latest message.
last_record :
    (front : Bytes) (g : PendingGroupMessage) (q : List PendingGroupMessage) (n : ℕ)
    → All IsPending (g ∷ q)
    → (b : Bytes) × (x : PendingGroupMessage) × IsPending x
      × (front ++ records_of (g ∷ q) ≡ b ++ record_of x)
      × (length b ≡ last_id (length front) (g ∷ q) n)
      × (length front ≤ length b)
unfolding last_id records_of
last_record front g [] n (p, ps) =
    (front, g, p, ap (◌++◌ front) (append-nil (record_of g)), refl, omega arith)
last_record front g (x ∷ q) n (p, ps) =
    let (b, y, py, e, l, f) = last_record (front ++ record_of g) x q (length front) ps in
    let len = length-append front (record_of g) in
    (
      b,
      y,
      py,
      sym (append_assoc front (record_of g) (records_of (x ∷ q))) ∙ e,
      l ∙ ap (λ (i : ℕ). last_id i (x ∷ q) (length front)) len,
      omega (arith, f, len),
    )

header_only : (file : Bytes) → length file ≡ 32 → read_latest_message_id file ≡ ok 0
unfolding read_latest_message_id
header_only file h = rw (le→leb (length file - 8) 32 (omega (arith, h)))

open_pending-kept : (file : Bytes) → 32 ≤ length file → open_pending file ≡ file
unfolding open_pending
open_pending-kept file h =
    rw (le→ltb (length file) 32 h) (rw (==_ne (length file) 0 (λ e. absurd (omega arith))))

open_cursor-written : (n : ℕ) → n < 2 ^ 63 → open_cursor (write_be 8 n) ≡ (write_be 8 n, n)
unfolding open_cursor
open_cursor-written n h =
    rw (le→ltb (length (write_be 8 n)) 8 (omega lengths))
      (ap (λ (r : ℕ × Bytes). (write_be 8 n, r.0)) (read_be-write_be_end 8 n 0 (omega arith)))

module _ {W : Type 0} where
  latest_sent :
      (s : Deliver W) (h : Waits s [])
      → Sent h.front s.latest_sended_msgid
      → length s.file < 2 ^ 63
      → read_latest_message_id s.file ≡ ok s.latest_msgid
  unfolding records_of last_id
  latest_sent s h (Sent.start l e) hl =
      let file = h.on_file ∙ append-nil h.front in
      header_only s.file (omega (arith, ap length file, l)) ∙ ap ok (sym e ∙ sym h.latest)
  latest_sent s h (Sent.after before x p f l e) hl =
      let file = h.on_file ∙ append-nil h.front ∙ f in
      ap read_latest_message_id file
      ∙ read_latest_message_id-record x p before l (omega (arith, ap length file, hl))
      ∙ ap ok (sym e ∙ sym h.latest)

  latest_id :
      (s : Deliver W) (q : List PendingGroupMessage) (h : Waits s q)
      → length s.file < 2 ^ 63
      → read_latest_message_id s.file ≡ ok s.latest_msgid
  latest_id s [] h hl = latest_sent s h h.sent hl
  latest_id s (g ∷ q) h hl =
      let (b, x, p, e, l, f) = last_record h.front g q s.latest_sended_msgid h.pending in
      let file = h.on_file ∙ e in
      ap read_latest_message_id file
      ∙ read_latest_message_id-record x p b (omega (arith, f, (Sent-lt h.sent).1))
          (omega (arith, ap length file, hl))
      ∙ ap ok (l ∙ sym h.latest)

  -- The state after a restart: the callbacks and the ids that were signalled are gone.
  abbrev pub restarted : Deliver W → Deliver W
  restarted s = record s { wt = []; id = 0; callbacks = []; callbackid_to_msgid = [] }

  -- A restart finds the latest id and the cursor again, so the same messages wait.
  pub new_deliver-Waits :
      (s : Deliver W) (q : List PendingGroupMessage)
      → Waits s q
      → length s.file < 2 ^ 63
      → (new_deliver s.file s.cursor s.chans s.net ≡ ok (restarted s)) × Waits (restarted s) q
  unfolding new_deliver
  new_deliver-Waits s q h hl =
      let len : length s.file ≡ length h.front + length (records_of q) =
        ap length h.on_file ∙ length-append h.front (records_of q) in
      let l = Sent-lt h.sent in
      let c : open_cursor s.cursor ≡ (s.cursor, s.latest_sended_msgid) =
        ap open_cursor h.cursor
        ∙ open_cursor-written s.latest_sended_msgid (omega (arith, l, len, hl))
        ∙ ap (λ b. (b, s.latest_sended_msgid)) (sym h.cursor) in
      (
        simp (open_pending-kept s.file (omega (arith, l, len)), c, latest_id s q h hl),
        record {
          front = h.front;
          on_file = h.on_file;
          sent = h.sent;
          latest = h.latest;
          cursor = h.cursor;
          pending = h.pending;
        },
      )

  -- On no files, nothing waits.
  pub new_deliver-empty :
      (net : W)
      → (s : Deliver W) × (new_deliver [] [] [] net ≡ ok s)
        × Waits s []
        × (s.net ≡ net)
        × (length s.file ≡ 32)
  unfolding new_deliver open_pending open_cursor records_of last_id
  new_deliver-empty net =
      let len : length pending_header ≡ 32 = unfold pending_header in omega lengths in
      (
        record {
          file = pending_header;
          cursor = write_be 8 0;
          latest_msgid = 0;
          latest_sended_msgid = 0;
          wt = [];
          id = 0;
          callbacks = [];
          callbackid_to_msgid = [];
          chans = [];
          net = net;
        },
        simp (header_only pending_header len),
        record {
          front = pending_header;
          on_file = sym (append-nil pending_header);
          sent = Sent.start len refl;
          latest = refl;
          cursor = refl;
          pending = tt;
        },
        refl,
        len,
      )
