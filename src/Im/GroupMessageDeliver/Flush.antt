-- ===== src/Im/GroupMessageDeliver/Flush.antt =====
-- `sendPendingMessage` and `flushPendingMessage` send what waits, in order, up to the first failure.
use im_service.Prelude.{
  ℕ, zero, suc, ◌+◌, ◌<◌, ◌≡◌, refl, sym, ap, subst, ◌∙◌, inl, inr, List, [], ◌∷◌, ◌++◌, Option,
  none, some, length, drop, if◌then◌else◌, ◌==◌, arith, length-append, drop-append, append_assoc,
  Option-cases,
}
use im_service.Core.Body.{Metadata, PendingGroupMessage}
use im_service.Im.GroupMessageDeliver.Defs.{
  Deliver, header_size, read_pending_message, send_loop, send_pending_message,
}
use im_service.Im.GroupMessageDeliver.Records.{
  pending_message, record_of, records_of, length-record_of,
}
use im_service.Im.GroupMessageDeliver.Waiting.{
  Sent, Sent-lt, last_id, last_id-lt, Waits, drain, Drained, send_loop-record, send_one-sent,
  send_one-failed, send_one-done, sent_state, sent_state-Waits, sent_state-keeps, sent_state-front,
}

module _ {W : Type 0} (send : PendingGroupMessage → W → W × Option Metadata) where
  pub drain-failed :
      (g : PendingGroupMessage) (q : List PendingGroupMessage) (net : W)
      → (send g net).1 ≡ none
      → drain send (g ∷ q) net ≡ ((send g net).0, g ∷ q)
  unfolding drain
  drain-failed g q net e = rw (e, drain)

  pub drain-done :
      (g : PendingGroupMessage) (q : List PendingGroupMessage) (net : W) (meta : Metadata)
      → (send g net).1 ≡ some meta
      → drain send (g ∷ q) net ≡ drain send q (send g net).0
  unfolding drain
  drain-done g q net meta e = rw (e, drain)

  loop-Drained :
      (fuel pos : ℕ) (q : List PendingGroupMessage) (s : Deliver W) (h : Waits s q)
      → pos ≡ length h.front
      → length (records_of q) < fuel
      → Drained send s q (send_loop send fuel pos (records_of q) s)
  unfolding records_of
  loop-Drained zero pos q s h e hf = absurd (omega arith)
  loop-Drained (suc fuel) pos [] s h e hf = record {
    state = s;
    ends = unfold send_loop read_pending_message in refl;
    waits = unfold drain in h;
    network = unfold drain in refl;
    file_kept = refl;
    latest_kept = refl;
  }
  loop-Drained (suc fuel) pos (g ∷ q) s h e hf =
      let l = Sent-lt h.sent in
      let first = send_loop-record send fuel pos g (records_of q) s h.pending.0 in
      elim (Option-cases (send g s.net).1) [
        | inl f ↦
            let d = drain-failed g q s.net f in
            record {
              state = record s { net = (send g s.net).0 };
              ends = first ∙ send_one-failed send _ pos g s (omega (arith, l.0, e)) f;
              waits = rw d (record {
                front = h.front;
                on_file = h.on_file;
                sent = h.sent;
                latest = h.latest;
                cursor = h.cursor;
                pending = h.pending;
              });
              network = rw d;
              file_kept = refl;
              latest_kept = refl;
            }
        | inr (meta, f) ↦
            let net = (send g s.net).0 in
            let t = sent_state (length h.front) meta net s in
            let (k, kf, kl) = sent_state-keeps (length h.front) meta net s in
            let go = send_loop send fuel (pos + length (record_of g)) (records_of q) in
            let r : Drained send t q (go t) =
              loop-Drained fuel (pos + length (record_of g)) q t (sent_state-Waits meta net g q s h)
                (omega (arith, e, sent_state-front meta net g q s h))
                (omega (
                  arith,
                  length-append (record_of g) (records_of q),
                  length-record_of g h.pending.0,
                )) in
            let same : drain send (g ∷ q) s.net ≡ drain send q t.net =
              drain-done g q s.net meta f ∙ ap (drain send q) (sym k) in
            record {
              state = r.state;
              ends =
                  first
                  ∙ send_one-done send go pos g s meta (omega (arith, l.0, e)) f
                  ∙ ap (λ (n : ℕ). go (sent_state n meta net s)) e
                  ∙ r.ends;
              waits = subst (λ d. Waits r.state d.1) (sym same) r.waits;
              network = r.network ∙ ap (λ d. d.0) (sym same);
              file_kept = r.file_kept ∙ kf;
              latest_kept = r.latest_kept ∙ kl;
            }
      ]

  drop_front :
      (s : Deliver W) (q : List PendingGroupMessage) (h : Waits s q)
      → drop (length h.front) s.file ≡ records_of q
  drop_front s q h =
      ap (drop (length h.front)) h.on_file
      ∙ drop-append h.front (records_of q) (length h.front) refl

  pending_at :
      (s : Deliver W) (x : ℕ)
      → (if s.latest_sended_msgid == 0 then header_size else s.latest_sended_msgid) ≡ x
      → send_pending_message send s ≡ send_loop send (suc (length s.file)) x (drop x s.file) s
  unfolding send_pending_message
  pending_at s x e = ap (λ n. send_loop send (suc (length s.file)) n (drop n s.file) s) e

  pub length-file :
      (s : Deliver W) (q : List PendingGroupMessage) (h : Waits s q)
      → length s.file ≡ length h.front + length (records_of q)
  length-file s q h = ap length h.on_file ∙ length-append h.front (records_of q)

  -- The loop begins at the header, or at the message that was sent last, which it passes over.
  loop_from :
      (s : Deliver W) (q : List PendingGroupMessage) (h : Waits s q)
      → Sent h.front s.latest_sended_msgid
      → (fuel : ℕ) × (length (records_of q) < fuel)
        × (send_pending_message send s ≡ send_loop send fuel (length h.front) (records_of q) s)
  loop_from s q h (Sent.start l e) = (
    suc (length s.file),
    omega (arith, length-file s q h),
    pending_at s (length h.front) (rw (e) (sym l))
        ∙ ap (λ b. send_loop send (suc (length s.file)) (length h.front) b s) (drop_front s q h),
  )
  loop_from s q h (Sent.after before g p f l e) =
      let last : length h.front ≡ length before + length (record_of g) =
        ap length f ∙ length-append before (record_of g) in
      let here : drop (length before) s.file ≡ record_of g ++ records_of q =
        ap (drop (length before)) (
          h.on_file
          ∙ ap (λ b. b ++ records_of q) f
          ∙ append_assoc before (record_of g) (records_of q))
        ∙ drop-append before (record_of g ++ records_of q) (length before) refl in
      (
        length s.file,
        omega (arith, length-file s q h, last, l),
        pending_at s (length before) (rw e (ground arith))
            ∙ ap (λ b. send_loop send (suc (length s.file)) (length before) b s) here
            ∙ send_loop-record send (length s.file) (length before) g (records_of q) s p
            ∙ send_one-sent send
                (send_loop send (length s.file) (length before + length (record_of g))
                  (records_of q))
                (length before) (pending_message g) s (omega (arith, e))
            ∙ ap (λ (n : ℕ). send_loop send (length s.file) n (records_of q) s) (sym last),
      )

  pub send_pending_message-Drained :
      (s : Deliver W) (q : List PendingGroupMessage)
      → Waits s q
      → Drained send s q (send_pending_message send s)
  send_pending_message-Drained s q h =
      let (fuel, enough, e) = loop_from s q h h.sent in
      subst (Drained send s q) (sym e) (loop-Drained fuel (length h.front) q s h refl enough)

  -- Nothing waits exactly if the fields say so.
  pub caught_up : (s : Deliver W) → Waits s [] → s.latest_msgid ≡ s.latest_sended_msgid
  unfolding last_id
  caught_up s h = h.latest

  pub behind :
      (s : Deliver W) (g : PendingGroupMessage) (q : List PendingGroupMessage)
      → Waits s (g ∷ q)
      → s.latest_sended_msgid < s.latest_msgid
  behind s g q h = omega (
    arith,
    h.latest,
    last_id-lt (length h.front) g q s.latest_sended_msgid (Sent-lt h.sent).0 h.pending,
  )
