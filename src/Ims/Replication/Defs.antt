-- ===== src/Ims/Replication/Defs.antt =====
-- The calls of `Storage`, `Master` and `Slaver` that replicate.
use im_service.Prelude.{
  ℕ, zero, suc, ◌+◌, ◌-◌, ◌*◌, ◌||◌, List, [], ◌∷◌, ◌++◌, Option, none, some, length, ltb, leb,
  ◌==◌, if◌then◌else◌,
}
use im_service.Prelude.Bytes.{Bytes}
use im_service.Core.Body.{Message, Body, Nested, Messages}
use im_service.Core.Command.{msg_storage_sync_message, msg_storage_sync_message_batch}
use im_service.Core.Decode.{Outcome, ok, panic, ◌>>=◌}
use im_service.Ims.StorageFile.{
  StorageFile, contents, put_file, open_write_file, get_block_no, get_block_offset, block_size,
  record_bytes,
}
use im_service.Ims.Storage.{Storage}
use im_service.Ims.PeerStorage.{exec_peer_message}
use im_service.Ims.GroupStorage.{exec_group_message}

-- `NextMessageID`: the slave's cursor.
unfoldable pub next_message_id : StorageFile → ℕ
next_message_id f = length (contents f.disk f.block_no) + f.block_no * block_size

unfoldable pub exec_message : Message → ℕ → Storage → Outcome Storage
exec_message m msgid s = do s' ← exec_peer_message m msgid s; exec_group_message m msgid s'

-- `make([]byte, n)`.
unfoldable pub padding : ℕ → Bytes
padding zero = []
padding (suc n) = 0 ∷ padding n

-- The file of the block of the id, which is this block or the next.
unfoldable pub enter_block : ℕ → StorageFile → StorageFile
enter_block n f = if n - f.block_no == 1 then open_write_file n f else f

-- The record at the offset of the id, behind the end of the file or there.
unfoldable pub write_at : ℕ → Message → StorageFile → StorageFile
write_at o m f =
    let bytes = contents f.disk f.block_no in
    record f {
      disk = put_file f.disk f.block_no (bytes ++ padding (o - length bytes) ++ record_bytes m);
    }

-- `SaveSyncMessage`: a message that is there already, or is too far ahead, is passed over.
unfoldable pub save_sync_message : ℕ → Message → Storage → Outcome Storage
save_sync_message msgid m s =
    let n = get_block_no msgid in
    let o = get_block_offset msgid in
    if ltb n s.file.block_no || ltb 1 (n - s.file.block_no)
    then ok s
    else let f = enter_block n s.file in
      if ltb o (length (contents f.disk f.block_no))
      then ok (record s { file = f })
      else exec_message m msgid (record s { file = write_at o m f })

-- The loop of `SaveSyncMessageBatch`.
unfoldable pub save_sync_messages : ℕ → Messages → Storage → Outcome Storage
save_sync_messages id Messages.end s = ok s
save_sync_messages id (Messages.next m ms) s = do
  s' ← save_sync_message id m s
  save_sync_messages (id + length (record_bytes m)) ms s'

unfoldable pub messages : List Message → Messages
messages [] = Messages.end
messages (m ∷ ms) = Messages.next m (messages ms)

-- What `RunOnce` of a slave does with a message. A type assertion panics on a body of another type, as
-- `WriteMessage` does on nil.
unfoldable pub handle_sync : Message → Storage → Outcome Storage
handle_sync (Message.message cmd seq v f body meta) s =
    if cmd == msg_storage_sync_message
    then elim body [
      | Body.emessage msgid device_id m ↦ elim m [
        | Nested.ref m' ↦ save_sync_message msgid m' s
        | Nested.nil ↦ panic
      ]
      | _ ↦ panic
    ]
    else if cmd == msg_storage_sync_message_batch
    then elim body [
      | Body.message_batch first_id last_id ms ↦ save_sync_messages first_id ms s
      | _ ↦ panic
    ]
    else ok s

-- `SendBatch`: the message that every client is sent.
abbrev pub last_of : ℕ → List (ℕ × Message) → ℕ
last_of id [] = id
last_of id ((i, m) ∷ ems) = last_of i ems

abbrev pub messages_of : List (ℕ × Message) → List Message
messages_of [] = []
messages_of ((i, m) ∷ ems) = m ∷ messages_of ems

abbrev pub batch_message : ℕ → ℕ → List Message → Message
batch_message first last ms =
    Message.message msg_storage_sync_message_batch 0 0 0
      (Body.message_batch first last (messages ms)) none

unfoldable pub send_batch : List (ℕ × Message) → Option Message
unfolding messages
send_batch [] = none
send_batch ((i, m) ∷ ems) = some (batch_message i (last_of i ems) (m ∷ messages_of ems))

-- `Master`: the cache of `Run`, the number of clients, and what was sent to each of them.
pub record Master : Type 0 where
  pub cache : List (ℕ × Message)
  pub sent : List Message

-- `SendBatch(cache)` and `cache[0:0]`.
unfoldable pub flush_cache : Master → Master
unfolding send_batch
flush_cache r = elim (send_batch r.cache) [
  | none ↦ record r { cache = [] }
  | some m ↦ record { cache = []; sent = r.sent ++ m ∷ [] }
]

-- A step of `Run`: a message from `ewt`, or the end of the wait.
pub data MasterEvent : Type 0 where
  arrived : ℕ → Message → MasterEvent
  waited : MasterEvent

unfoldable pub run_step : MasterEvent → Master → Master
unfolding flush_cache
run_step (arrived id m) r =
    let r' = record r { cache = r.cache ++ (id, m) ∷ [] } in
    if leb 1000 (length r'.cache) then flush_cache r' else r'
run_step waited r = if ltb 0 (length r.cache) then flush_cache r else r

unfoldable pub run_steps : List MasterEvent → Master → Master
run_steps [] r = r
run_steps (e ∷ es) r = run_steps es (run_step e r)
