-- ===== src/Ims/PeerStorage/LoadsV3.antt =====
-- `LoadHistoryMessagesV3`, which looks for a place to start among every thousandth entry, and
-- `GetNewCount`.
use im_service.Prelude.{
  ℕ, zero, suc, ◌+◌, ◌-◌, ◌%◌, ◌^◌, Bool, true, false, not, ◌&&◌, ◌||◌, List, [], ◌∷◌, ◌++◌, Option,
  none, some, length, leb, drop, ◌==◌, if◌then◌else◌,
}
use im_service.Prelude.Bytes.{lt64, le64, positive64, at_limit, quot64}
use im_service.Core.Body.{Message, OfflineMessage, body}
use im_service.Core.Decode.{Outcome, ok, panic, stuck, ◌>>=◌}
use im_service.Ims.StorageFile.{
  StorageFile, contents, get_file, read_message, or_nil, header_size, get_block_no,
  get_block_offset,
}
use im_service.Ims.Storage.{Storage, EMessage, batch_size, offline_body}
use im_service.Ims.PeerStorage.Defs.{get_peer_index}
use mathlib.Core.Option
use im_service.Ims.PeerStorage.Loads.{load_entry, Walk, nothing_loaded, walk, is_history}

-- The loop of `LoadHistoryMessagesV3` over the entries whose number is a multiple of 1000: those
-- behind `sync_msgid`, the newest first.
unfoldable pub search_batches :
    ℕ → ℕ → ℕ → ℕ → List ℕ → StorageFile → Outcome (StorageFile × List ℕ)
search_batches zero sync_msgid hard_batch_count last_batch_id batch_ids f = stuck
search_batches (suc fuel) sync_msgid hard_batch_count last_batch_id batch_ids f =
    elim (le64 last_batch_id sync_msgid) [
      | true ↦ ok (f, batch_ids)
      | false ↦ do
        (f', entry) ← load_entry last_batch_id f
        elim entry [
          | none ↦ ok (f', batch_ids)
          | some off ↦ elim (le64 off.msgid sync_msgid) [
            | true ↦ ok (f', batch_ids)
            | false ↦
                let found = batch_ids ++ last_batch_id ∷ [] in
                elim (positive64 hard_batch_count && leb hard_batch_count (length found)) [
                  | true ↦ ok (f', found)
                  | false ↦
                      search_batches fuel sync_msgid hard_batch_count off.prev_batch_msgid found f'
                ]
          ]
        ]
    ]

-- `batch_ids[i]`; an index out of range panics.
unfoldable pub nth_batch : List ℕ → ℕ → Outcome ℕ
nth_batch [] i = panic
nth_batch (b ∷ bs) zero = ok b
nth_batch (b ∷ bs) (suc i) = nth_batch bs i

-- `batch_count`: 1 instead of 0.
unfoldable pub batches : ℕ → ℕ
batches limit = if quot64 limit batch_size == 0 then 1 else quot64 limit batch_size

-- Where the second loop of `LoadHistoryMessagesV3` starts, and whether it follows the messages
-- between two users only.
unfoldable pub start_of : List ℕ → ℕ → ℕ → ℕ → Outcome (ℕ × Bool)
start_of batch_ids hard_batch_count batch_count last_id =
    if positive64 hard_batch_count
      && leb hard_batch_count (length batch_ids)
      && le64 batch_count hard_batch_count
    then (do
      id ← nth_batch batch_ids ((length batch_ids + (2 ^ 64 - batch_count)) % 2 ^ 64)
      ok (id, true))
    else if at_limit batch_count (length batch_ids)
    then (do
      id ← nth_batch batch_ids ((length batch_ids + (2 ^ 64 - batch_count)) % 2 ^ 64)
      ok (id, false))
    else ok (last_id, false)

unfoldable pub history_walk_v3 : ℕ → ℕ → Bool → Walk
history_walk_v3 sync_msgid limit is_peer = record {
  stops = λ id. false;
  reached = λ off. le64 off.msgid sync_msgid;
  wanted = is_history;
  full = λ n. positive64 limit && leb limit n;
  following = λ n off. if is_peer then off.prev_peer_msgid else off.prev_msgid;
}

-- `LoadHistoryMessagesV3`: also whether there are newer messages than those returned.
unfoldable pub load_history_messages_v3 :
    ℕ → ℕ → ℕ → ℕ → ℕ → ℕ → Storage → Outcome (Storage × List EMessage × ℕ × Bool)
load_history_messages_v3 fuel appid receiver sync_msgid limit hard_limit s = do
  let ui = get_peer_index appid receiver s
  let hard_batch_count = quot64 hard_limit batch_size
  (f, batch_ids) ← search_batches fuel sync_msgid hard_batch_count ui.last_batch_id [] s.file
  (last_id, is_peer) ← start_of batch_ids hard_batch_count (batches limit) ui.last_id
  (f', l) ← walk (history_walk_v3 sync_msgid limit is_peer) fuel last_id nothing_loaded f
  let has_more = lt64 0 l.last_offline_msgid && lt64 l.last_offline_msgid ui.last_id
  ok (record s { file = f' }, l.messages, l.last_msgid, has_more)

-- The second `ReadMessage` of `GetNewCount`: what follows in the block, or else the first message of
-- the next one.
unfoldable pub next_message :
    ℕ → Outcome (Option (Message × List ℕ)) → StorageFile → Outcome (StorageFile × Option Message)
next_message block_no read f = do
  r ← read
  elim r [
    | some (m, rest) ↦ ok (f, some m)
    | none ↦
        let (f', file) = get_file (block_no + 1) f in
        elim file [
          | none ↦ ok (f', none)
          | some b ↦ do
            r' ← or_nil (read_message (drop header_size (contents f'.disk b)))
            ok (f', Option.map (λ p. p.0) r')
        ]
  ]

-- The tests of `GetNewCount` on the entry behind the message `last_received_id`.
unfoldable pub count_since : ℕ → ℕ → ℕ → ℕ → Option OfflineMessage → ℕ
count_since appid uid last_received_id last_seq_id none = 0
count_since appid uid last_received_id last_seq_id (some off) =
    if not (off.msgid == last_received_id)
    then 0
    else if not (off.appid == appid) || not (off.receiver == uid)
    then 0
    else if lt64 last_seq_id off.seq_id
    then 0
    else (last_seq_id + (2 ^ 64 - off.seq_id)) % 2 ^ 64

-- `GetNewCount`: the number of the user's messages behind the message `last_received_id`.
unfoldable pub get_new_count : ℕ → ℕ → ℕ → Storage → Outcome (Storage × ℕ)
get_new_count appid uid last_received_id s =
    let last_seq_id = (get_peer_index appid uid s).last_seq_id in
    let (f, file) = get_file (get_block_no last_received_id) s.file in
    if last_received_id == 0 then ok (s, last_seq_id) else elim file [
      | none ↦ ok (record s { file = f }, 0)
      | some b ↦ do
        r ← or_nil (read_message (drop (get_block_offset last_received_id) (contents f.disk b)))
        elim r [
          | none ↦ ok (record s { file = f }, 0)
          | some (m, rest) ↦ do
            (f', entry) ← next_message b (or_nil (read_message rest)) f
            ok (
              record s { file = f' },
              count_since appid uid last_received_id last_seq_id
                  (Option.bind entry (λ x. offline_body (body x))),
            )
        ]
    ]
