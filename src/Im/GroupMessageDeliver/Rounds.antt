-- ===== src/Im/GroupMessageDeliver/Rounds.antt =====
-- `flushPendingMessage` makes one round of sending or more, and cuts the file.
use im_service.Prelude.{
  ℕ, zero, suc, ◌*◌, ◌≤◌, ◌≡◌, refl, sym, ap, subst, ◌∙◌, inl, inr, List, [], ◌∷◌, Option, length,
  take, if◌then◌else◌, ltb, ◌==◌, le→ltb, lt→ltb, ==_ne, ==_eqn, append-nil, length-take,
  length-take-le_length, arith, Bool-cases,
}
use im_service.Core.Body.{Metadata, PendingGroupMessage}
use im_service.Core.Decode.{Outcome, ok, ◌>>=◌}
use im_service.Im.GroupMessageDeliver.Defs.{
  Deliver, header_size, save_cursor, truncate_file, clear_callback, cut_file, flush_pending_message,
}
use im_service.Im.GroupMessageDeliver.Records.{records_of}
use im_service.Im.GroupMessageDeliver.Waiting.{
  Sent, Sent-lt, last_id, Waits, drain, Drained, overwrite,
}
use im_service.Im.GroupMessageDeliver.Flush.{
  send_pending_message-Drained, caught_up, behind, length-file,
}

module _ {W : Type 0} (send : PendingGroupMessage → W → W × Option Metadata) where
  -- As many rounds of `drain`, one behind send the other.
  unfoldable pub drains : ℕ → List PendingGroupMessage → W → W × List PendingGroupMessage
  drains zero q net = (net, q)
  drains (suc n) q net = drains n (drain send q net).1 (drain send q net).0

  -- A run ends in a state in which the messages wait that so many rounds leave.
  pub record Flushed (s : Deliver W) (q : List PendingGroupMessage) (n : ℕ)
      (r : Outcome (Deliver W)) : Type 0 where
    pub state : Deliver W
    pub ends : r ≡ ok state
    pub waits : Waits state (drains n q s.net).1
    pub network : state.net ≡ (drains n q s.net).0
    pub file_size : length state.file ≤ length s.file

  cut-Waits : (t : Deliver W) → Waits t [] → Waits (clear_callback (truncate_file t)) []
  unfolding clear_callback truncate_file save_cursor records_of last_id
  cut-Waits t h = record {
    front = take header_size t.file;
    on_file = sym (append-nil (take header_size t.file));
    sent =
        Sent.start
          (length-take 32 t.file (omega (arith, length-file send t [] h, (Sent-lt h.sent).1))) refl;
    latest = refl;
    cursor = rw h.cursor (overwrite 0 t.latest_sended_msgid);
    pending = tt;
  }

  -- The end of `flushPendingMessage`: the file is cut if nothing waits.
  cut_end :
      (n : ℕ) (t : Deliver W) (q : List PendingGroupMessage)
      → Waits t q
      → t.latest_msgid ≡ n
      → Flushed t q 0
          (ok (if n == t.latest_sended_msgid then clear_callback (truncate_file t) else t))
  unfolding drains
  cut_end n t [] h e = rw (==_eqn n t.latest_sended_msgid (sym e ∙ caught_up send t h)) (record {
    state = clear_callback (truncate_file t);
    ends = refl;
    waits = cut-Waits t h;
    network = unfold clear_callback truncate_file save_cursor in refl;
    file_size = unfold clear_callback truncate_file save_cursor in length-take-le_length 32 t.file;
  })
  cut_end n t (g ∷ q) h e =
      rw (==_ne n t.latest_sended_msgid (λ x. absurd (omega (arith, behind send t g q h, e, x))))
        (record { state = t; ends = refl; waits = h; network = refl; file_size = omega arith })

  rounds_then :
      (n : ℕ) (s : Deliver W) (q : List PendingGroupMessage) {r : Outcome (Deliver W)}
      (k : Deliver W → Outcome (Deliver W)) (d : Drained send s q r)
      → Flushed d.state (drain send q s.net).1 n (k d.state)
      → Flushed s q (suc n) (r >>= k)
  unfolding drains
  rounds_then n s q k d f = record {
    state = f.state;
    ends = ap (λ o. o >>= k) d.ends ∙ f.ends;
    waits = subst (λ w. Waits f.state (drains n (drain send q s.net).1 w).1) d.network f.waits;
    network = f.network ∙ ap (λ w. (drains n (drain send q s.net).1 w).0) d.network;
    file_size = omega (arith, f.file_size, ap length d.file_kept);
  }

  cut_file-Flushed :
      (s : Deliver W) (q : List PendingGroupMessage)
      → Waits s q
      → (n : ℕ) × Flushed s q n (cut_file send s)
  unfolding cut_file
  cut_file-Flushed s [] h = (
    0,
    rw (le→ltb s.latest_sended_msgid s.latest_msgid (omega (arith, caught_up send s h)))
        (cut_end s.latest_msgid s [] h refl),
  )
  cut_file-Flushed s (g ∷ q) h = (
    1,
    rw (lt→ltb s.latest_sended_msgid s.latest_msgid (behind send s g q h)) (
        let d = send_pending_message-Drained send s (g ∷ q) h in
        rounds_then 0 s (g ∷ q) _ d (cut_end s.latest_msgid d.state _ d.waits d.latest_kept)),
  )

  after_round :
      (t : Deliver W) (q : List PendingGroupMessage)
      → Waits t q
      → (n : ℕ) × Flushed t q n
          (if ltb (128 * 1024 * 1024) t.latest_sended_msgid then cut_file send t else ok t)
  unfolding drains
  after_round t q h = elim (Bool-cases (ltb (128 * 1024 * 1024) t.latest_sended_msgid)) [
    | inl e ↦ let (n, f) = cut_file-Flushed t q h in (n, rw e f)
    | inr e ↦ (
      0,
      rw e (record { state = t; ends = refl; waits = h; network = refl; file_size = omega arith }),
    )
  ]

  -- `flushPendingMessage` returns, after rounds that each send the messages that wait, in order, up to
  -- the first failure: one round at least if any wait.
  pub flush_pending_message-Flushed :
      (s : Deliver W) (q : List PendingGroupMessage)
      → Waits s q
      → (n : ℕ) × Flushed s q (suc n) (flush_pending_message send s)
  unfolding flush_pending_message
  flush_pending_message-Flushed s [] h = (
    0,
    rw (le→ltb s.latest_sended_msgid s.latest_msgid (omega (arith, caught_up send s h))) (record {
      state = s;
      ends = refl;
      waits = unfold drains drain in h;
      network = unfold drains drain in refl;
      file_size = omega arith;
    }),
  )
  flush_pending_message-Flushed s (g ∷ q) h =
      let d = send_pending_message-Drained send s (g ∷ q) h in
      let (n, f) = after_round d.state (drain send (g ∷ q) s.net).1 d.waits in
      (
        n,
        rw (lt→ltb s.latest_sended_msgid s.latest_msgid (behind send s g q h))
            (rounds_then n s (g ∷ q) _ d f),
      )
