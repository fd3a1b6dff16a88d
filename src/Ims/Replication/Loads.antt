-- ===== src/Ims/Replication/Loads.antt =====
-- `LoadSyncMessagesInBackground`: what a master sends to a slave that begins.
use im_service.Prelude.{
  ℕ, zero, suc, ◌+◌, ◌-◌, List, [], ◌∷◌, ◌++◌, Option, none, some, length, drop, ltb, leb, ◌==◌,
  if◌then◌else◌,
}
use im_service.Prelude.Bytes.{Bytes}
use im_service.Core.Body.{Message}
use im_service.Core.Decode.{Outcome, ok, refused, panic, stuck, ◌>>=◌}
use im_service.Ims.StorageFile.{
  get_block_no, get_block_offset, get_msg_id, header_size, read_message, or_nil,
}

-- `MessageBatch`.
pub record Batch : Type 0 where
  pub first_id : ℕ
  pub last_id : ℕ
  pub msgs : List Message

abbrev pub batch_count : ℕ
batch_count = 5000

abbrev pub new_batch : Batch
new_batch = record { first_id = 0; last_id = 0; msgs = [] }

abbrev pub add_message : ℕ → Message → Batch → Batch
add_message msgid m b = record {
  first_id = if b.first_id == 0 then msgid else b.first_id;
  last_id = msgid;
  msgs = b.msgs ++ m ∷ [];
}

-- The inner loop, on the file's rest from `position` on. `b` is the batch that is being filled.
unfoldable pub sync_file : ℕ → ℕ → ℕ → Bytes → Batch → Outcome (List Batch)
sync_file zero block position bytes b = stuck
sync_file (suc fuel) block position bytes b = elim (or_nil (read_message bytes)) [
  | ok none ↦ ok (if ltb 0 (length b.msgs) then b ∷ [] else [])
  | ok (some (m, rest)) ↦
      let b' = add_message (get_msg_id block position) m b in
      let full = leb batch_count (length b'.msgs) in
      do
        bs ←
            sync_file fuel block (position + (length bytes - length rest)) rest
              (if full then new_batch else b')
        ok (if full then b' ∷ bs else bs)
  | refused ↦ refused
  | panic ↦ panic
  | stuck ↦ stuck
]

-- The outer loop, from block `n` on; the cursor is in block `first`, at `offset`. It ends at a block
-- that is not there, and at one that is shorter than `offset`. `fuel` bounds the blocks.
unfoldable pub sync_blocks : (ℕ → Option Bytes) → ℕ → ℕ → ℕ → ℕ → Outcome (List Batch)
sync_blocks disk zero first offset n = stuck
sync_blocks disk (suc fuel) first offset n = elim (disk n) [
  | none ↦ ok []
  | some bytes ↦
      let start = if n == first then offset else header_size in
      let more = do
        bs ← sync_file (suc (length bytes)) n start (drop start bytes) new_batch
        cs ← sync_blocks disk fuel first offset (n + 1)
        ok (bs ++ cs)
      in if ltb (length bytes) offset then ok [] else more
]

unfoldable pub load_sync_messages : (ℕ → Option Bytes) → ℕ → ℕ → Outcome (List Batch)
unfolding sync_blocks
load_sync_messages disk fuel cursor =
    sync_blocks disk fuel (get_block_no cursor) (get_block_offset cursor) (get_block_no cursor)
