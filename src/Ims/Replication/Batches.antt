-- ===== src/Ims/Replication/Batches.antt =====
-- What `Run` of a master sends, and the ids that `SaveSyncMessageBatch` of a slave counts.
use im_service.Prelude.{
  ℕ, ◌+◌, ◌≤◌, ◌<◌, ◌≡◌, refl, sym, ap, ◌∙◌, false, List, [], ◌∷◌, ◌++◌, arith, length, ltb, leb,
  Bool-cases, inl, inr, append_assoc, append-nil, length-append, Option-cases, fun_ext,
}
use im_service.Core.Body.{Message}
use im_service.Core.Decode.{Outcome, ok, ◌>>=◌}
use im_service.Core.RoundTrip.Sent.{received, received_list}
use im_service.Ims.StorageFile.{record_bytes}
use im_service.Ims.Storage.{Storage}
use im_service.Ims.Replication.Slaver.{record_bytes-received}
use im_service.Ims.Replication.Defs.{
  save_sync_message, save_sync_messages, messages, messages_of, last_of, batch_message, send_batch,
  Master, MasterEvent, arrived, waited, flush_cache, run_step, run_steps, handle_sync,
}

-- A list of batches, each of them what `SendBatch` sends of at least one and at most 1000 messages,
-- and all that they hold in order.
pub data Batches : List Message → List (ℕ × Message) → Type 0 where
  no_batch : Batches [] []
  batch :
      {sent : List Message} {ems : List (ℕ × Message)} (i : ℕ) (m : Message)
      (rest : List (ℕ × Message))
      → Batches sent ems
      → length rest < 1000
      → Batches
          (sent ++ batch_message i (last_of i rest) (m ∷ messages_of rest) ∷ [])
          (ems ++ (i, m) ∷ rest)

-- What arrived, in order.
abbrev pub arrivals : List MasterEvent → List (ℕ × Message)
arrivals [] = []
arrivals (arrived id m ∷ es) = (id, m) ∷ arrivals es
arrivals (waited ∷ es) = arrivals es

-- Everything that arrived was sent in batches, or is in the cache.
pub record Sends (r : Master) (all : List (ℕ × Message)) : Type 0 where
  pub done : List (ℕ × Message)
  pub batches : Batches r.sent done
  pub rest : all ≡ done ++ r.cache
  pub short : length r.cache < 1000

flush_cache-Sends :
    (cache : List (ℕ × Message)) (sent : List Message) (done all : List (ℕ × Message))
    → Batches sent done
    → all ≡ done ++ cache
    → length cache ≤ 1000
    → Sends (flush_cache (record { cache = cache; sent = sent })) all
unfolding flush_cache send_batch
flush_cache-Sends [] sent done all b e l = record {
  done = done;
  batches = b;
  rest = e;
  short = omega arith;
}
flush_cache-Sends ((i, m) ∷ rest) sent done all b e l = record {
  done = done ++ (i, m) ∷ rest;
  batches = batch i m rest b (omega (arith, l));
  rest = e ∙ sym (append-nil (done ++ (i, m) ∷ rest));
  short = omega arith;
}

run_step-Sends :
    (e : MasterEvent) (r : Master) (all : List (ℕ × Message))
    → Sends r all
    → Sends (run_step e r) (all ++ arrivals (e ∷ []))
unfolding run_step
run_step-Sends (arrived id m) r all h =
    let cache = r.cache ++ (id, m) ∷ [] in
    let len = length-append r.cache ((id, m) ∷ []) in
    let whole =
      ap (λ (w : List (ℕ × Message)). w ++ (id, m) ∷ []) h.rest
      ∙ append_assoc h.done r.cache ((id, m) ∷ []) in
    elim (Bool-cases (leb 1000 (length cache))) [
      | inl t ↦
          rw t
            (flush_cache-Sends cache r.sent h.done _ h.batches whole (omega (arith, len, h.short)))
      | inr t ↦
          rw t
            (record { done = h.done; batches = h.batches; rest = whole; short = ground (arith, t) })
    ]
run_step-Sends waited r all h = elim (Bool-cases (ltb 0 (length r.cache))) [
  | inl t ↦ rw t (
      flush_cache-Sends r.cache r.sent h.done _ h.batches (append-nil all ∙ h.rest)
        (omega (arith, h.short)))
  | inr t ↦ rw t (record {
    done = h.done;
    batches = h.batches;
    rest = append-nil all ∙ h.rest;
    short = h.short;
  })
]

run_steps-Sends :
    (es : List MasterEvent) (r : Master) (all : List (ℕ × Message))
    → Sends r all
    → Sends (run_steps es r) (all ++ arrivals es)
unfolding run_steps
run_steps-Sends [] r all h = rw (append-nil all) h
run_steps-Sends (arrived id m ∷ es) r all h =
    rw (sym (append_assoc all ((id, m) ∷ []) (arrivals es)))
      (run_steps-Sends es (run_step (arrived id m) r) _ (run_step-Sends (arrived id m) r all h))
run_steps-Sends (waited ∷ es) r all h =
    run_steps-Sends es (run_step waited r) all
      (rw (append-nil all) at (run_step-Sends waited r all h))

abbrev pub new_master : Master
new_master = record { cache = []; sent = [] }

new_master-Sends : Sends new_master []
new_master-Sends = record { done = []; batches = no_batch; rest = refl; short = omega arith }

flush_cache-cache : (r : Master) → (flush_cache r).cache ≡ []
unfolding flush_cache
flush_cache-cache r = elim (Option-cases (send_batch r.cache)) [
  | inl e ↦ rw (e, flush_cache) refl
  | inr (m, e) ↦ rw (e, flush_cache) refl
]

waited-cache : (r : Master) → (run_step waited r).cache ≡ []
unfolding run_step
waited-cache r = elim (Bool-cases (ltb 0 (length r.cache))) [
  | inl t ↦ rw t (flush_cache-cache r)
  | inr t ↦ rw t (no_cache r.cache t)
]
  where
    no_cache : (c : List (ℕ × Message)) → ltb 0 (length c) ≡ false → c ≡ []
    no_cache [] e = refl
    no_cache (x ∷ c) e = absurd (ground (arith, e))

-- Whatever arrives at a new master and whenever the waits of `Run` end, after the end of one more
-- wait its cache is empty, and what it sent is a list of batches as `SendBatch` makes them, each of
-- 1 to 1000 messages, which hold everything that arrived, in order.
pub run_steps-waited :
    (es : List MasterEvent)
    → ((run_step waited (run_steps es new_master)).cache ≡ [])
      × Batches (run_step waited (run_steps es new_master)).sent (arrivals es)
run_steps-waited es =
    let r = run_steps es new_master in
    let h = run_step-Sends waited r _ (run_steps-Sends es new_master [] new_master-Sends) in
    let empty = waited-cache r in
    let all : arrivals es ≡ h.done =
      sym (append-nil (arrivals es)) ∙ h.rest ∙ rw empty (append-nil h.done) in
    (empty, rw all h.batches)

-- Each id is the one before it and the length of that message's record, as it is in one block.
pub data Consecutive : ℕ → List (ℕ × Message) → Type 0 where
  last : {id : ℕ} → Consecutive id []
  next :
      {id : ℕ} {ems : List (ℕ × Message)} (m : Message)
      → Consecutive (id + length (record_bytes m)) ems
      → Consecutive id ((id, m) ∷ ems)

-- `SaveSyncMessage` of each message as it arrives.
unfoldable pub save_each : List (ℕ × Message) → Storage → Outcome Storage
save_each [] s = ok s
save_each ((id, m) ∷ ems) s = do s' ← save_sync_message id (received m) s; save_each ems s'

save_sync_messages-each :
    (id : ℕ) (ems : List (ℕ × Message)) (s : Storage)
    → Consecutive id ems
    → save_sync_messages id (received_list (messages (messages_of ems))) s ≡ save_each ems s
unfolding save_sync_messages save_each messages received
save_sync_messages-each id _ s last = refl
save_sync_messages-each id _ s (next {ems = ems} m c) = rw (record_bytes-received m) (
    ap (λ (k : Storage → Outcome Storage). save_sync_message id (received m) s >>= k)
      (fun_ext (λ t. save_sync_messages-each (id + length (record_bytes m)) ems t c)))

-- What a slave does with a batch of messages in one block, as it arrives, is what `SaveSyncMessage`
-- does with each of its messages as it arrives, one after the other, under the ids that the
-- messages have at the master.
pub handle_sync-batch :
    (id : ℕ) (m : Message) (rest : List (ℕ × Message)) (s : Storage)
    → Consecutive id ((id, m) ∷ rest)
    → handle_sync (received (batch_message id (last_of id rest) (m ∷ messages_of rest))) s
      ≡ save_each ((id, m) ∷ rest) s
unfolding handle_sync received
handle_sync-batch id m rest s c = save_sync_messages-each id ((id, m) ∷ rest) s c
