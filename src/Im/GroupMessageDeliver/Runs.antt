-- ===== src/Im/GroupMessageDeliver/Runs.antt =====
-- Saves, flushes and restarts: one step keeps the order of what is sent and what waits.
use im_service.Prelude.{
  ℕ, zero, suc, ◌+◌, ◌^◌, ◌≤◌, ◌<◌, ◌≡◌, refl, sym, ap, subst, ◌∙◌, inl, inr, List, [], ◌∷◌, ◌++◌,
  Option, none, some, length, All, arith, length-append, append-nil, append_assoc, Option-cases,
}
use im_service.Core.Body.{Metadata, PendingGroupMessage}
use im_service.Core.Decode.{Outcome, ok, ◌>>=◌}
use im_service.Im.GroupMessageDeliver.Defs.{
  Deliver, new_deliver, save_pending_message, remove_callback, flush_pending_message,
}
use im_service.Im.GroupMessageDeliver.Records.{pending_message, IsPending, record_of, records_of}
use im_service.Im.GroupMessageDeliver.Waiting.{Waits, drain}
use im_service.Im.GroupMessageDeliver.Rounds.{drains, flush_pending_message-Flushed}
use im_service.Im.GroupMessageDeliver.Flush.{drain-failed, drain-done}
use im_service.Im.GroupMessageDeliver.Saves.{
  save-Waits, save-keeps, remove_callback-Waits, remove_callback-keeps,
}
use im_service.Im.GroupMessageDeliver.Restart.{restarted, new_deliver-Waits}

-- A client saves a message with a callback channel or without, and may give up its callback; the
-- goroutine flushes; the process stops between two of these and starts again on its files.
pub data Event : Type 0 where
  save : PendingGroupMessage → Option ℕ → Event
  give_up : ℕ → Event
  flush : Event
  restart : Event

-- The messages of the saves, in order.
unfoldable pub saves : List Event → List PendingGroupMessage
saves [] = []
saves (Event.save g ch ∷ es) = g ∷ saves es
saves (_ ∷ es) = saves es

module _ {W : Type 0} (send : PendingGroupMessage → W → W × Option Metadata) where
  unfoldable pub handle : Event → Deliver W → Outcome (Deliver W)
  handle (Event.save g ch) s = ok (save_pending_message (pending_message g) ch s).0
  handle (Event.give_up id) s = ok (remove_callback id s)
  handle Event.flush s = flush_pending_message send s
  handle Event.restart s = new_deliver s.file s.cursor s.chans s.net

  unfoldable pub run : List Event → Deliver W → Outcome (Deliver W)
  unfolding handle
  run [] s = ok s
  run (e ∷ es) s = do s' ← handle e s; run es s'

  -- `Delivered net done rest net'`: from `net` on, the messages `done` were sent in this order, each by
  -- one call of `send` that gave metadata. A call that failed was for the message next in order.
  pub data Delivered (net : W)
      : List PendingGroupMessage → List PendingGroupMessage → W → Type 0 where
    begin : {rest : List PendingGroupMessage} → Delivered net [] rest net
    sent :
        {done rest : List PendingGroupMessage} {net' : W} (g : PendingGroupMessage)
        (meta : Metadata)
        → Delivered net done (g ∷ rest) net'
        → (send g net').1 ≡ some meta
        → Delivered net (done ++ g ∷ []) rest (send g net').0
    failed :
        {done rest : List PendingGroupMessage} {net' : W} (g : PendingGroupMessage)
        → Delivered net done (g ∷ rest) net'
        → (send g net').1 ≡ none
        → Delivered net done (g ∷ rest) (send g net').0

  more :
      {net net' : W} {done rest : List PendingGroupMessage} (later : List PendingGroupMessage)
      → Delivered net done rest net'
      → Delivered net done (rest ++ later) net'
  more later begin = begin
  more later (sent g meta d e) = sent g meta (more later d) e
  more later (failed g d e) = failed g (more later d) e

  -- A state that the messages `all` have led to: some were sent and the rest waits.
  pub record Reached (net : W) (all : List PendingGroupMessage) (s : Deliver W) : Type 0 where
    pub done : List PendingGroupMessage
    pub waiting : List PendingGroupMessage
    pub split : done ++ waiting ≡ all
    pub waits : Waits s waiting
    pub delivered : Delivered net done waiting s.net

  -- The same for the messages that a flush leaves.
  pub record Rest (net : W) (all : List PendingGroupMessage) (net' : W)
      (waiting : List PendingGroupMessage) : Type 0 where
    pub done : List PendingGroupMessage
    pub split : done ++ waiting ≡ all
    pub delivered : Delivered net done waiting net'

  drain-Rest :
      {net : W} {all : List PendingGroupMessage} (net' : W) (q : List PendingGroupMessage)
      → Rest net all net' q
      → Rest net all (drain send q net').0 (drain send q net').1
  drain-Rest net' [] r = unfold drain in r
  drain-Rest {net} {all} net' (g ∷ q) r = elim (Option-cases (send g net').1) [
    | inl e ↦
        subst (λ d. Rest net all d.0 d.1) (sym (drain-failed send g q net' e))
          (record { done = r.done; split = r.split; delivered = failed g r.delivered e })
    | inr (meta, e) ↦
        subst (λ d. Rest net all d.0 d.1) (sym (drain-done send g q net' meta e))
          (drain-Rest (send g net').0 q (record {
            done = r.done ++ g ∷ [];
            split = append_assoc r.done (g ∷ []) q ∙ r.split;
            delivered = sent g meta r.delivered e;
          }))
  ]

  pub drains-Rest :
      {net : W} {all : List PendingGroupMessage} (n : ℕ) (net' : W) (q : List PendingGroupMessage)
      → Rest net all net' q
      → Rest net all (drains send n q net').0 (drains send n q net').1
  unfolding drains
  drains-Rest zero net' q r = r
  drains-Rest (suc n) net' q r =
      drains-Rest n (drain send q net').0 (drain send q net').1 (drain-Rest net' q r)

  pub handle-Reached :
      {net : W} {all : List PendingGroupMessage} (e : Event) (s : Deliver W)
      → Reached net all s
      → All IsPending (saves (e ∷ []))
      → length s.file + length (records_of (saves (e ∷ []))) < 2 ^ 63
      → (s' : Deliver W) × (handle e s ≡ ok s')
        × Reached net (all ++ saves (e ∷ [])) s'
        × (length s'.file ≤ length s.file + length (records_of (saves (e ∷ []))))
  unfolding handle saves records_of
  handle-Reached {net} (Event.save g ch) s r (p, _) hl = (
    (save_pending_message (pending_message g) ch s).0,
    refl,
    record {
      done = r.done;
      waiting = r.waiting ++ g ∷ [];
      split = sym (append_assoc r.done r.waiting (g ∷ [])) ∙ ap (λ l. l ++ g ∷ []) r.split;
      waits = save-Waits g ch s r.waiting p r.waits;
      delivered =
          subst (Delivered net r.done (r.waiting ++ g ∷ [])) (sym (save-keeps g ch s).0)
            (more (g ∷ []) r.delivered);
    },
    omega (
      arith,
      ap length (save-keeps g ch s).1,
      length-append s.file (record_of g),
      length-append (record_of g) [],
    ),
  )
  handle-Reached {net} (Event.give_up id) s r p hl =
      let k = remove_callback-keeps id s in
      (
        remove_callback id s,
        refl,
        record {
          done = r.done;
          waiting = r.waiting;
          split = r.split ∙ sym (append-nil _);
          waits = remove_callback-Waits id s r.waiting r.waits;
          delivered = subst (Delivered net r.done r.waiting) (sym k.0) r.delivered;
        },
        omega (arith, ap length k.1),
      )
  handle-Reached {net} Event.flush s r p hl =
      let (n, f) = flush_pending_message-Flushed send s r.waiting r.waits in
      let d =
        drains-Rest (suc n) s.net r.waiting
          (record { done = r.done; split = r.split; delivered = r.delivered }) in
      (
        f.state,
        f.ends,
        record {
          done = d.done;
          waiting = (drains send (suc n) r.waiting s.net).1;
          split = d.split ∙ sym (append-nil _);
          waits = f.waits;
          delivered =
              subst (Delivered net d.done (drains send (suc n) r.waiting s.net).1) (sym f.network)
                d.delivered;
        },
        omega (arith, f.file_size),
      )
  handle-Reached Event.restart s r p hl =
      let (e, w) = new_deliver-Waits s r.waiting r.waits (omega (arith, hl)) in
      (
        restarted s,
        e,
        record {
          done = r.done;
          waiting = r.waiting;
          split = r.split ∙ sym (append-nil _);
          waits = w;
          delivered = r.delivered;
        },
        omega arith,
      )
