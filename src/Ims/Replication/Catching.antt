-- ===== src/Ims/Replication/Catching.antt =====
-- A slave that begins is sent what it lacks: `LoadSyncMessagesInBackground` on a log.
use im_service.Prelude.{
  ℕ, zero, suc, ◌+◌, ◌-◌, ◌*◌, ◌≤◌, ◌<◌, ◌≡◌, ◌≢◌, refl, sym, ap, ◌∙◌, true, false, List, [], ◌∷◌,
  ◌++◌, Option, none, some, All, arith, length, drop, ltb, leb, ◌==◌, if◌then◌else◌, ==_refl,
  Bool-cases, inl, inr, append_assoc, append-nil, length-append, drop-append,
}
use im_service.Prelude.Bytes.{Bytes}
use im_service.Core.Body.{Message}
use im_service.Core.Decode.{ok, ◌>>=◌}
use im_service.Core.RoundTrip.Sent.{received}
use im_service.Ims.StorageFile.{
  StorageFile, get_block_no, get_block_offset, get_msg_id, block_size, file_header, record_bytes,
  read_message, or_nil,
}
use im_service.Ims.StorageFile.Stored.{
  IsStorable, read_message-record, length-record_bytes, length-file_header,
}
use im_service.Ims.Storage.Log.{records, records-append}
use im_service.Ims.Storage.Logged.{Logged}
use im_service.Ims.Replication.Loads.{
  Batch, batch_count, new_batch, add_message, sync_file, sync_blocks, load_sync_messages,
}
use im_service.Ims.Replication.Slaver.{record_bytes-received}

-- Messages with the ids that `SaveSyncMessageBatch` counts, the first of them `id`.
abbrev pub ids_from : ℕ → List Message → List (ℕ × Message)
ids_from id [] = []
ids_from id (m ∷ ms) = (id, m) ∷ ids_from (id + length (record_bytes m)) ms

-- The messages of the batches, with these ids.
abbrev pub all_of : List Batch → List (ℕ × Message)
all_of [] = []
all_of (b ∷ bs) = ids_from b.first_id b.msgs ++ all_of bs

abbrev pub all_received : List Message → List Message
all_received [] = []
all_received (m ∷ ms) = received m ∷ all_received ms

ids_from-append :
    (id : ℕ) (ms ns : List Message)
    → ids_from id (ms ++ ns) ≡ ids_from id ms ++ ids_from (id + length (records ms)) ns
unfolding records
ids_from-append id [] ns = ap (λ (i : ℕ). ids_from i ns) (omega arith)
ids_from-append id (m ∷ ms) ns = ap (◌∷◌ (id, m)) (
    ids_from-append (id + length (record_bytes m)) ms ns
    ∙ ap (λ (i : ℕ). ids_from (id + length (record_bytes m)) ms ++ ids_from i ns)
        (omega (arith, length-append (record_bytes m) (records ms))))

-- The batch that is being filled ends at `id`.
data Filling (id : ℕ) : Batch → Type 0 where
  nothing_yet : Filling id new_batch
  filled :
      (first last : ℕ) (ms : List Message)
      → first ≢ 0
      → first + length (records ms) ≡ id
      → Filling id (record { first_id = first; last_id = last; msgs = ms })

length-records_end :
    (ms : List Message) (m : Message)
    → length (records (ms ++ m ∷ [])) ≡ length (records ms) + length (record_bytes m)
length-records_end ms m =
    ap length (records-append ms m) ∙ length-append (records ms) (record_bytes m)

add_message-Filling :
    (id : ℕ) (m : Message) (b : Batch)
    → id ≢ 0
    → Filling id b
    → Filling (id + length (record_bytes m)) (add_message id m b)
      × (ids_from (add_message id m b).first_id (add_message id m b).msgs
          ≡ ids_from b.first_id b.msgs ++ (id, m) ∷ [])
unfolding records
add_message-Filling id m _ h nothing_yet =
    (filled id id (m ∷ []) h (omega (arith, length-append (record_bytes m) [])), refl)
add_message-Filling id m _ h (filled first last ms f e) =
    let z : first == 0 ≡ false = ground (arith, f) in
    rw z (
      filled first id (ms ++ m ∷ []) f (omega (arith, length-records_end ms m, e)),
      ids_from-append first ms (m ∷ [])
          ∙ ap (λ (i : ℕ). ids_from first ms ++ ids_from i (m ∷ [])) e,
    )

last_batch :
    (first last : ℕ) (ms : List Message)
    → all_of (
        if ltb 0 (length ms)
        then record { first_id = first; last_id = last; msgs = ms } ∷ []
        else [])
      ≡ ids_from first ms ++ []
last_batch first last [] = refl
last_batch first last (m ∷ ms) = let z : ltb 0 (length (m ∷ ms)) ≡ true = ground arith in rw z refl

-- A record that is read goes into the batch.
sync_file-record :
    (fuel block position : ℕ) (m : Message) (ms : List Message) (b : Batch)
    → IsStorable m
    → let b' = add_message (get_msg_id block position) (received m) b in
      let full = leb batch_count (length b'.msgs) in
      sync_file (suc fuel) block position (records (m ∷ ms)) b ≡ (
        sync_file fuel block
          (position + length (record_bytes m))
          (records ms)
          (if full then new_batch else b')
        >>= λ bs. ok (if full then b' ∷ bs else bs))
unfolding sync_file or_nil records
sync_file-record fuel block position m ms b h =
    let read : or_nil (read_message (record_bytes m ++ records ms))
        ≡ ok (some (received m, records ms)) =
      ap or_nil (read_message-record m (records ms) h) in
    let step : length (record_bytes m ++ records ms) - length (records ms)
        ≡ length (record_bytes m) =
      omega (arith, length-append (record_bytes m) (records ms)) in
    rw (read, sync_file) (rw step refl)

-- The batches of the rest of a file.
sync_file-records :
    (fuel block position : ℕ) (ms : List Message) (b : Batch)
    → All IsStorable ms
    → length (records ms) < fuel
    → 0 < position
    → Filling (block * block_size + position) b
    → (bs : List Batch) × (sync_file fuel block position (records ms) b ≡ ok bs)
      × (all_of bs
          ≡ ids_from b.first_id b.msgs
            ++ ids_from (block * block_size + position) (all_received ms))
unfolding records
sync_file-records zero block position ms b h l p f = absurd (omega arith)
sync_file-records (suc fuel) block position [] b h l p f = (
  if ltb 0 (length b.msgs) then b ∷ [] else [],
  unfold sync_file or_nil read_message in refl,
  last_batch b.first_id b.last_id b.msgs,
)
sync_file-records (suc fuel) block position (m ∷ ms) b (hm, hs) l p f =
    let id = block * block_size + position in
    let one = length-append (record_bytes m) (records ms) in
    let same = ap length (record_bytes-received m) in
    let position' = position + length (record_bytes m) in
    let b' = add_message id (received m) b in
    let (f1, e') = add_message-Filling id (received m) b (λ z. omega (arith, z, p)) f in
    let next : id + length (record_bytes (received m)) ≡ block * block_size + position' =
      omega (arith, same) in
    let f' : Filling (block * block_size + position') b' = rw next at f1 in
    let l' : length (records ms) < fuel =
      omega (arith, one, l, length-record_bytes m (records ms)) in
    let p' : 0 < position' = omega (arith, p) in
    let read = sync_file-record fuel block position m ms b hm in
    let all = ids_from (block * block_size + position') (all_received ms) in
    let old = ids_from b.first_id b.msgs in
    let joined : ids_from b'.first_id b'.msgs ++ all ≡ old ++ ids_from id (all_received (m ∷ ms)) =
      ap (λ (w : List (ℕ × Message)). w ++ all) e'
      ∙ append_assoc old ((id, received m) ∷ []) all
      ∙ ap (λ (i : ℕ). old ++ (id, received m) ∷ ids_from i (all_received ms)) (sym next) in
    elim (Bool-cases (leb batch_count (length b'.msgs))) [
      | inl t ↦
          let (bs, runs, is) =
            sync_file-records fuel block position' ms new_batch hs l' p' nothing_yet in
          (
            b' ∷ bs,
            read ∙ rw (t, runs) refl,
            ap (λ (w : List (ℕ × Message)). ids_from b'.first_id b'.msgs ++ w) is ∙ joined,
          )
      | inr t ↦
          let (bs, runs, is) = sync_file-records fuel block position' ms b' hs l' p' f' in
          (bs, read ∙ rw (t, runs) refl, is ∙ joined)
    ]

records-append_list : (ms ns : List Message) → records (ms ++ ns) ≡ records ms ++ records ns
unfolding records
records-append_list [] ns = refl
records-append_list (m ∷ ms) ns =
    ap (◌++◌ (record_bytes m)) (records-append_list ms ns)
    ∙ sym (append_assoc (record_bytes m) (records ms) (records ns))

All-drop : (ms ns : List Message) → All IsStorable (ms ++ ns) → All IsStorable ns
All-drop [] ns h = h
All-drop (m ∷ ms) ns (h, hs) = All-drop ms ns hs

-- The last block is the only one that is read.
sync_blocks-last :
    (disk : ℕ → Option Bytes) (fuel n offset : ℕ) (bytes : Bytes) (bs : List Batch)
    → disk n ≡ some bytes
    → disk (n + 1) ≡ none
    → offset ≤ length bytes
    → sync_file (suc (length bytes)) n offset (drop offset bytes) new_batch ≡ ok bs
    → sync_blocks disk (suc (suc fuel)) n offset n ≡ ok bs
unfolding sync_blocks
sync_blocks-last disk fuel n offset bytes bs e gone l runs =
    let long : ltb (length bytes) offset ≡ false = ground (arith, l) in
    let self : n == n ≡ true = ==_refl n in
    rw (e, sync_blocks) (rw (long, self, runs) (rw (gone, sync_blocks) (ap ok (append-nil bs))))

-- A slave that has the first messages of the last block.
module _ (f : StorageFile) (log : ℕ → List Message) (h : Logged f log) (front back : List Message)
    (here : log f.block_no ≡ front ++ back) (fuel : ℕ) where
  abbrev offset : ℕ
  offset = length (file_header ++ records front)

  abbrev pub cursor : ℕ
  cursor = f.block_no * block_size + offset

  on_disk : f.disk f.block_no ≡ some ((file_header ++ records front) ++ records back)
  on_disk =
      h.holds f.block_no (omega arith)
      ∙ ap (λ l. some (file_header ++ records l)) here
      ∙ ap (λ l. some (file_header ++ l)) (records-append_list front back)
      ∙ ap some (sym (append_assoc file_header (records front) (records back)))

  -- Where the block files hold a log and the cursor is behind some messages of the last block,
  -- `LoadSyncMessagesInBackground`, with fuel for two blocks or more, ends and gives batches which
  -- together hold the block's other messages as they are read back, in order, and the ids that
  -- `SaveSyncMessageBatch` counts from the first id of each batch are those under which the
  -- messages are stored.
  pub load_sync_messages-Logged :
      offset < block_size
      → (bs : List Batch) × (load_sync_messages f.disk (suc (suc fuel)) cursor ≡ ok bs)
        × (all_of bs ≡ ids_from cursor (all_received back))
  unfolding load_sync_messages
  load_sync_messages-Logged room =
      let n = f.block_no in
      let bytes = (file_header ++ records front) ++ records back in
      let block : get_block_no cursor ≡ n = omega (arith, room) in
      let at : get_block_offset cursor ≡ offset = omega (arith, room) in
      let start : 0 < offset =
        omega (arith, length-append file_header (records front), length-file_header) in
      let len = length-append (file_header ++ records front) (records back) in
      let rest : drop offset bytes ≡ records back =
        drop-append (file_header ++ records front) (records back) offset refl in
      let stored : All IsStorable back = All-drop front back (rw here at (h.storable n)) in
      let (bs, runs, is) =
        sync_file-records (suc (length bytes)) n offset back new_batch stored (omega (arith, len))
          start nothing_yet in
      (
        bs,
        ap (λ (i : ℕ). sync_blocks f.disk (suc (suc fuel)) i (get_block_offset cursor) i) block
            ∙ ap (λ (o : ℕ). sync_blocks f.disk (suc (suc fuel)) n o n) at
            ∙ sync_blocks-last f.disk fuel n offset bytes bs on_disk (h.fresh (n + 1) (omega arith))
                (omega (arith, len))
                (ap (λ r. sync_file (suc (length bytes)) n offset r new_batch) rest ∙ runs),
        is,
      )
