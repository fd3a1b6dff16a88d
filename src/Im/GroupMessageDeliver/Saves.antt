-- ===== src/Im/GroupMessageDeliver/Saves.antt =====
-- A save puts a message behind those that wait; giving up a callback changes none of them.
use im_service.Prelude.{
  ℕ, ◌+◌, ◌≡◌, refl, sym, ap, subst, ◌∙◌, List, [], ◌∷◌, ◌++◌, Option, none, some, length, All,
  arith, length-append, append-nil, append_assoc,
}
use im_service.Prelude.Bytes.{write_be}
use im_service.Core.Body.{PendingGroupMessage}
use im_service.Im.GroupMessageDeliver.Defs.{Deliver, save_pending_message, remove_callback}
use im_service.Im.GroupMessageDeliver.Records.{pending_message, IsPending, record_of, records_of}
use im_service.Im.GroupMessageDeliver.Waiting.{Sent, last_id, Waits}

records_of-append :
    (q : List PendingGroupMessage) (g : PendingGroupMessage)
    → records_of (q ++ g ∷ []) ≡ records_of q ++ record_of g
unfolding records_of
records_of-append [] g = append-nil (record_of g)
records_of-append (x ∷ q) g =
    ap (◌++◌ (record_of x)) (records_of-append q g)
    ∙ sym (append_assoc (record_of x) (records_of q) (record_of g))

last_id-append :
    (pos : ℕ) (q : List PendingGroupMessage) (g : PendingGroupMessage) (n : ℕ)
    → last_id pos (q ++ g ∷ []) n ≡ pos + length (records_of q)
unfolding last_id records_of
last_id-append pos [] g n = omega arith
last_id-append pos (x ∷ q) g n = omega (
  arith,
  last_id-append (pos + length (record_of x)) q g pos,
  length-append (record_of x) (records_of q),
)

All-snoc :
    (q : List PendingGroupMessage) (g : PendingGroupMessage)
    → All IsPending q
    → IsPending g
    → All IsPending (q ++ g ∷ [])
All-snoc [] g h p = (p, tt)
All-snoc (x ∷ q) g (h, hs) p = (h, All-snoc q g hs p)

module _ {W : Type 0} where
  -- A message that is saved waits behind the others, with a callback channel or without.
  pub save-Waits :
      (g : PendingGroupMessage) (ch : Option ℕ) (s : Deliver W) (q : List PendingGroupMessage)
      → IsPending g
      → Waits s q
      → Waits (save_pending_message (pending_message g) ch s).0 (q ++ g ∷ [])
  unfolding save_pending_message
  save-Waits g ch s q p h =
      let len : length s.file ≡ length h.front + length (records_of q) =
        ap length h.on_file ∙ length-append h.front (records_of q) in
      let file : s.file ++ record_of g ≡ h.front ++ records_of (q ++ g ∷ []) =
        ap (λ b. b ++ record_of g) h.on_file
        ∙ append_assoc h.front (records_of q) (record_of g)
        ∙ ap (◌++◌ h.front) (sym (records_of-append q g)) in
      let latest = len ∙ sym (last_id-append (length h.front) q g s.latest_sended_msgid) in
      by_channel ch (record {
        front = h.front;
        on_file = file;
        sent = h.sent;
        latest = latest;
        cursor = h.cursor;
        pending = All-snoc q g h.pending p;
      })
    where
      by_channel :
          (c : Option ℕ)
          → Waits
              (record s { file = s.file ++ record_of g; latest_msgid = length s.file })
              (q ++ g ∷ [])
          → Waits (save_pending_message (pending_message g) c s).0 (q ++ g ∷ [])
      by_channel none w = record {
        front = w.front;
        on_file = w.on_file;
        sent = w.sent;
        latest = w.latest;
        cursor = w.cursor;
        pending = w.pending;
      }
      by_channel (some c) w = record {
        front = w.front;
        on_file = w.on_file;
        sent = w.sent;
        latest = w.latest;
        cursor = w.cursor;
        pending = w.pending;
      }

  pub save-keeps :
      (g : PendingGroupMessage) (ch : Option ℕ) (s : Deliver W)
      → ((save_pending_message (pending_message g) ch s).0.net ≡ s.net)
        × ((save_pending_message (pending_message g) ch s).0.file ≡ s.file ++ record_of g)
  unfolding save_pending_message
  save-keeps g none s = (refl, refl)
  save-keeps g (some c) s = (refl, refl)

  pub remove_callback-keeps :
      (id : ℕ) (s : Deliver W)
      → ((remove_callback id s).net ≡ s.net)
        × ((remove_callback id s).file ≡ s.file)
        × ((remove_callback id s).cursor ≡ s.cursor)
        × ((remove_callback id s).latest_msgid ≡ s.latest_msgid)
        × ((remove_callback id s).latest_sended_msgid ≡ s.latest_sended_msgid)
  unfolding remove_callback
  remove_callback-keeps id s = ground arith

  pub remove_callback-Waits :
      (id : ℕ) (s : Deliver W) (q : List PendingGroupMessage)
      → Waits s q
      → Waits (remove_callback id s) q
  remove_callback-Waits id s q h =
      let (n, f, c, l, d) = remove_callback-keeps id s in
      record {
        front = h.front;
        on_file = f ∙ h.on_file;
        sent = subst (Sent h.front) (sym d) h.sent;
        latest = l ∙ h.latest ∙ ap (last_id (length h.front) q) (sym d);
        cursor = c ∙ h.cursor ∙ ap (write_be 8) (sym d);
        pending = h.pending;
      }
