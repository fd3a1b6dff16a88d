-- ===== src/Im/GroupMessageDeliver/Send/Answers.antt =====
-- If storage answers, `sendGroupMessage` succeeds, and so a flush sends all that waits.
use im_service.Prelude.{
  ℕ, ◌+◌, ◌*◌, ◌^◌, ◌<◌, ◌≡◌, refl, ap, ◌∙◌, List, [], ◌∷◌, Option, some, length, All, ==_eqn,
}
use im_service.Prelude.Maps.{Map}
use im_service.Prelude.Bytes.{Bytes}
use im_service.Core.Body.{Metadata, PendingGroupMessage}
use im_service.Core.Decode.{ok, ◌>>=◌}
use im_service.Im.GroupMessageDeliver.Defs.{Deliver, new_deliver, flush_pending_message}
use im_service.Im.GroupMessageDeliver.Records.{IsPending, records_of}
use im_service.Im.GroupMessageDeliver.Waiting.{Waits}
use im_service.Im.GroupMessageDeliver.Runs.{Event, saves, run, Delivered}
use im_service.Im.GroupMessageDeliver.Sequences.{flush-Delivered}
use im_service.Im.GroupMessageDeliver.Send.Defs.{
  Net, save_peer_group_message, send_batches, send_group_message,
}
use im_service.Im.GroupMessageDeliver.Send.Told.{with_ids, ids_of}
use im_service.Im.GroupMessageDeliver.Send.Batches.{batches-next, then_net}
use im_service.Im.GroupMessageDeliver.Send.Members.{group-done, none_yet, batches}

module _ {R : Type 0} (storage : ℕ → List ℕ → ℕ → ℕ → Bytes → R → R × Option (List ℕ))
    (answers : (appid : ℕ) (mb : List ℕ) (device_id cmd : ℕ) (raw : Bytes) (st : R)
      → (r : List ℕ) × ((storage appid mb device_id cmd raw st).1 ≡ some r)
        × (length r ≡ length mb * 2)) where
  save-answers :
      (gm : PendingGroupMessage) (mb : List ℕ) (net : Net R)
      → (r : List ℕ) × ((save_peer_group_message gm storage mb net).1 ≡ some r)
        × (length r ≡ length mb * 2)
  unfolding save_peer_group_message
  save-answers gm [] net = ([], refl, refl)
  save-answers gm (u ∷ mb) net = answers gm.appid (u ∷ mb) gm.device_id _ _ net.storages

  batches-answers :
      (gm : PendingGroupMessage) (bs : List (List ℕ)) (d : Metadata) (net : Net R)
      → (meta : Metadata) × ((send_batches gm storage bs d net).1 ≡ some meta)
  batches-answers gm [] d net = (d, unfold send_batches in refl)
  batches-answers gm (mb ∷ bs) d net =
      let (r, e, l) = save-answers gm mb net in
      let next = batches-next gm storage mb bs d net r e (==_eqn (length r) (length mb * 2) l) in
      let (meta, f) =
        batches-answers gm bs (ids_of gm.sender (with_ids mb r) d)
          (then_net gm storage mb bs d net r) in
      (meta, ap (λ p. p.1) next ∙ f)

  -- Let storage answer every call with two ids for each member. Take a deliverer that starts on no
  -- files, and any saves of group messages (their integers fit their types, they have at most 4091
  -- members and less than 1 MB, and their records together less than 2^63 bytes), calls that give
  -- up a callback, flushes, and restarts between these. A flush after them returns, no message
  -- waits, and every message that was saved has been sent by one call of `sendGroupMessage` that
  -- succeeded, in the order of the saves.
  pub flush-send_group_message :
      (n : ℕ) (range : Map (List ℕ) → List (List ℕ)) (net : Net R) (es : List Event)
      → All IsPending (saves es)
      → 32 + length (records_of (saves es)) < 2 ^ 63
      → (s : Deliver (Net R)) × ((do
        s0 ← new_deliver [] [] [] net
        s1 ← run (λ gm. send_group_message gm storage n range) es s0
        flush_pending_message (λ gm. send_group_message gm storage n range) s1)
          ≡ ok s)
        × Delivered (λ gm. send_group_message gm storage n range) net (saves es) [] s.net
        × Waits s []
  flush-send_group_message n range net es p hl =
      flush-Delivered (λ gm. send_group_message gm storage n range) net es p hl
        λ gm net'.
          let (meta, e) = batches-answers gm (batches gm storage n range net') none_yet net' in
          (meta, ap (λ q. q.1) (group-done gm storage n range net' meta e))
