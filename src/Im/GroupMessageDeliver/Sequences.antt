-- ===== src/Im/GroupMessageDeliver/Sequences.antt =====
-- Sequences of events: every message is sent once, in the order of the saves.
use im_service.Prelude.{
  ℕ, zero, suc, ◌+◌, ◌^◌, ◌<◌, ◌≡◌, refl, sym, ap, subst, ◌∙◌, List, [], ◌∷◌, ◌++◌, Option, some,
  length, All, arith, length-append, append-nil, append_assoc,
}
use im_service.Core.Body.{Metadata, PendingGroupMessage}
use im_service.Core.Decode.{Outcome, ok, refused, panic, stuck, ◌>>=◌}
use im_service.Im.GroupMessageDeliver.Defs.{Deliver, new_deliver, flush_pending_message}
use im_service.Im.GroupMessageDeliver.Records.{IsPending, record_of, records_of}
use im_service.Im.GroupMessageDeliver.Waiting.{Waits, drain}
use im_service.Im.GroupMessageDeliver.Rounds.{drains, flush_pending_message-Flushed}
use im_service.Im.GroupMessageDeliver.Flush.{drain-done}
use im_service.Im.GroupMessageDeliver.Restart.{new_deliver-empty}
use im_service.Im.GroupMessageDeliver.Runs.{
  Event, saves, run, Delivered, begin, Reached, drains-Rest, handle-Reached,
}

module _ {W : Type 0} (send : PendingGroupMessage → W → W × Option Metadata) where
  saves_step : (e : Event) (es : List Event) → saves (e ∷ es) ≡ saves (e ∷ []) ++ saves es
  unfolding saves
  saves_step (Event.save g ch) es = refl
  saves_step (Event.give_up id) es = refl
  saves_step Event.flush es = refl
  saves_step Event.restart es = refl

  length-records :
      (q q' : List PendingGroupMessage)
      → length (records_of (q ++ q')) ≡ length (records_of q) + length (records_of q')
  unfolding records_of
  length-records [] q' = omega arith
  length-records (g ∷ q) q' = omega (
    arith,
    length-append (record_of g) (records_of (q ++ q')),
    length-append (record_of g) (records_of q),
    length-records q q',
  )

  All-parts :
      (q q' : List PendingGroupMessage)
      → All IsPending (q ++ q')
      → All IsPending q × All IsPending q'
  All-parts [] q' h = (tt, h)
  All-parts (g ∷ q) q' (h, hs) = let (a, b) = All-parts q q' hs in ((h, a), b)

  runs-Reached :
      {net : W} {all : List PendingGroupMessage} (es : List Event) (s : Deliver W)
      → Reached send net all s
      → All IsPending (saves es)
      → length s.file + length (records_of (saves es)) < 2 ^ 63
      → (s' : Deliver W) × (run send es s ≡ ok s') × Reached send net (all ++ saves es) s'
  unfolding run saves
  runs-Reached {net} {all} [] s r p hl =
      (s, refl, subst (λ l. Reached send net l s) (sym (append-nil all)) r)
  runs-Reached {net} {all} (e ∷ es) s r p hl =
      let e1 = saves_step e es in
      let now = saves (e ∷ []) in
      let (p1, p2) = All-parts now (saves es) (subst (All IsPending) e1 p) in
      let l = ap (λ q. length (records_of q)) e1 ∙ length-records now (saves es) in
      let (t, et, rt, lt) = handle-Reached send e s r p1 (omega (arith, l, hl)) in
      let (u, eu, ru) = runs-Reached es t rt p2 (omega (arith, l, hl, lt)) in
      (
        u,
        ap (λ o. o >>= run send es) et ∙ eu,
        subst (λ q. Reached send net q u) (append_assoc all now (saves es) ∙ ap (◌++◌ all) (sym e1))
            ru,
      )

  -- Take a deliverer that starts on no files, and any saves of group messages (their integers fit
  -- their types, they have at most 4091 members and less than 1 MB, and their records together less
  -- than 2^63 bytes), calls that give up a callback, flushes, and restarts between these. No call
  -- fails, and the messages that have been sent and then those that wait in the file are the
  -- messages of the saves in their order: each was sent by at most one call that succeeded, and the
  -- calls that failed were for the message next in order.
  pub run-Reached :
      (net : W) (es : List Event)
      → All IsPending (saves es)
      → 32 + length (records_of (saves es)) < 2 ^ 63
      → (s : Deliver W) × ((do s0 ← new_deliver [] [] [] net; run send es s0) ≡ ok s)
        × Reached send net (saves es) s
  run-Reached net es p hl =
      let (s0, e, w, n, l) = new_deliver-empty net in
      let begun : Delivered send net [] [] s0.net =
        subst (Delivered send net [] []) (sym n) begin in
      let r : Reached send net [] s0 = record {
        done = [];
        waiting = [];
        split = refl;
        waits = w;
        delivered = begun;
      } in
      let (s, es', rs) = runs-Reached es s0 r p (omega (arith, l, hl)) in
      (s, ap (λ o. o >>= run send es) e ∙ es', rs)

  drain-all :
      ((g : PendingGroupMessage) (net : W) → (meta : Metadata) × ((send g net).1 ≡ some meta))
      → (q : List PendingGroupMessage) (net : W) → (drain send q net).1 ≡ []
  unfolding drain
  drain-all a [] net = refl
  drain-all a (g ∷ q) net =
      let (meta, e) = a g net in
      ap (λ d. d.1) (drain-done send g q net meta e) ∙ drain-all a q (send g net).0

  drains-nil : (n : ℕ) (net : W) → (drains send n [] net).1 ≡ []
  unfolding drains drain
  drains-nil zero net = refl
  drains-nil (suc n) net = drains-nil n net

  bind_assoc :
      {A B C : Type 0} (m : Outcome A) (k : A → Outcome B) (l : B → Outcome C)
      → (m >>= (λ a. k a >>= l)) ≡ ((m >>= k) >>= l)
  bind_assoc (ok a) k l = refl
  bind_assoc refused k l = refl
  bind_assoc panic k l = refl
  bind_assoc stuck k l = refl

  all_done :
      {net net' : W} {done rest all : List PendingGroupMessage}
      → rest ≡ []
      → done ++ rest ≡ all
      → Delivered send net done rest net'
      → Delivered send net all [] net'
  all_done {net} {net'} {done} e split d =
      subst (λ l. Delivered send net l [] net')
        (sym (append-nil done) ∙ ap (◌++◌ done) (sym e) ∙ split)
        (subst (λ q. Delivered send net done q net') e d)

  -- If `sendGroupMessage` never fails, then a flush after any such run send returns, and every message that
  -- was saved has been sent by one call, in the order of the saves; no message waits.
  pub flush-Delivered :
      (net : W) (es : List Event)
      → All IsPending (saves es)
      → 32 + length (records_of (saves es)) < 2 ^ 63
      → ((g : PendingGroupMessage) (net' : W) → (meta : Metadata) × ((send g net').1 ≡ some meta))
      → (s : Deliver W) × ((do
        s0 ← new_deliver [] [] [] net
        s1 ← run send es s0
        flush_pending_message send s1)
          ≡ ok s)
        × Delivered send net (saves es) [] s.net
        × Waits s []
  unfolding drains
  flush-Delivered net es p hl answers =
      let (s1, e1, r) = run-Reached net es p hl in
      let (n, f) = flush_pending_message-Flushed send s1 r.waiting r.waits in
      let left = (drain send r.waiting s1.net).0 in
      let nothing : (drains send (suc n) r.waiting s1.net).1 ≡ [] =
        ap (λ q. (drains send n q left).1) (drain-all answers r.waiting s1.net)
        ∙ drains-nil n left in
      let d =
        drains-Rest send (suc n) s1.net r.waiting
          (record { done = r.done; split = r.split; delivered = r.delivered }) in
      (
        f.state,
        bind_assoc (new_deliver [] [] [] net) (run send es) (flush_pending_message send)
            ∙ ap (λ o. o >>= flush_pending_message send) e1
            ∙ f.ends,
        subst (Delivered send net (saves es) []) (sym f.network)
            (all_done nothing d.split d.delivered),
        subst (Waits f.state) nothing f.waits,
      )
