-- ===== src/Examples/Replicas.antt =====
-- A slave of the empty storage, and an index file of two users.
use im_service.Prelude.{ℕ, ◌≡◌, refl, true, ◌+◌, List, [], ◌∷◌, ◌++◌, some, arith, length, ◌<◌}
use im_service.Prelude.Bytes.{write_be}
use im_service.Core.Body.{Message}
use im_service.Core.Encode.{write_message, write_im_message_v1}
use im_service.Core.Decode.{ok, ◌>>=◌}
use im_service.Core.RoundTrip.Sent.{received}
use im_service.Ims.StorageFile.{
  record_bytes, block_size, file_header, append_record, roll, fits, open_write_file, contents,
  put_file,
}
use im_service.Ims.StorageFile.Stored.{saved}
use im_service.Ims.Storage.{Storage, Key, Index, UserIndex, lookup, same_key}
use im_service.Ims.PeerStorage.{save_peer_message, entry_message, is_peer_entry}
use im_service.Ims.PeerStorage.Saves.{group, ui, saved_entry, saved_file}
use im_service.Ims.PeerStorage.IndexFile.Defs.{save_peer_index, read_peer_index}
use im_service.Ims.PeerStorage.IndexFile.RoundTrip.{read_peer_index-save_peer_index}
use im_service.Ims.Replication.Defs.{
  MasterEvent, arrived, waited, run_step, run_steps, save_sync_message, batch_message, last_of,
  handle_sync,
}
use im_service.Ims.Replication.Peers.{Replica, save_peer_message-save_sync_message}
use im_service.Ims.Replication.Batches.{
  Batches, arrivals, new_master, run_steps-waited, last, next, save_each, handle_sync-batch,
}
use im_service.Ims.Replication.Loads.{Batch, load_sync_messages}
use im_service.Ims.Replication.Catching.{
  all_of, ids_from, all_received, cursor, load_sync_messages-Logged,
}
use im_service.Ims.Storage.Log.{records}
use im_service.Ims.Storage.Logged.{Logged, add_log}
use im_service.Ims.Storage.Saves.{saved_log, saved-Logged}
use im_service.Examples.Messages.{hello, hello-IsStorable}
use im_service.Examples.Files.{
  empty_file, empty_file-Logged, empty_storage, no_messages, hello_entry-IsOfflineMessage, behind,
  one_saved,
}

abbrev slave : Storage
slave = record empty_storage { file = record empty_file { last_saved_id = 5 } }

abbrev hello_entry : Message
hello_entry =
    entry_message (group 7 12 1 hello empty_storage) (saved_entry 7 12 1 hello empty_storage)

save_peer_message-save_sync_message_example :
    (save_peer_message 7 12 1 hello empty_storage
      ≡ ok (behind, (saved hello empty_file).1, (ui 7 12 1 hello empty_storage).last_msgid))
    × (behind.file.ewt
        ≡ empty_file.ewt
          ++ ((saved hello empty_file).1, hello)
            ∷ ((saved_file 7 12 1 hello empty_storage).1, hello_entry)
            ∷ [])
    × ((t : Storage) × ((save_sync_message (saved hello empty_file).1 (received hello) slave
            >>= save_sync_message (saved_file 7 12 1 hello empty_storage).1 (received hello_entry))
          ≡ ok t)
        × Replica t behind)
unfolding is_peer_entry
save_peer_message-save_sync_message_example =
    save_peer_message-save_sync_message 7 12 1 hello empty_storage slave no_messages
      empty_file-Logged hello-IsStorable hello_entry-IsOfflineMessage
      ((λ b. refl, refl), refl, refl) refl refl refl

abbrev events : List MasterEvent
events = arrived 32 hello ∷ waited ∷ arrived 90 hello ∷ arrived 148 hello ∷ []

run_steps-waited_example :
    ((run_step waited (run_steps events new_master)).cache ≡ [])
    × Batches (run_step waited (run_steps events new_master)).sent (arrivals events)
run_steps-waited_example = run_steps-waited events

abbrev second_id : ℕ
second_id = 32 + length (record_bytes hello)

handle_sync-batch_example :
    handle_sync
      (received (batch_message 32 (last_of 32 ((second_id, hello) ∷ [])) (hello ∷ hello ∷ [])))
      slave
    ≡ save_each ((32, hello) ∷ (second_id, hello) ∷ []) slave
handle_sync-batch_example =
    handle_sync-batch 32 hello ((second_id, hello) ∷ []) slave (next hello (next hello last))

abbrev index : Index UserIndex
index =
    (
      record { appid = 7; id = 12 },
      record {
        last_msgid = 90;
        last_id = 148;
        last_peer_id = 148;
        last_batch_id = 0;
        last_seq_id = 1;
      },
    )
    ∷ (
      record { appid = 7; id = 5 },
      record {
        last_msgid = 200;
        last_id = 260;
        last_peer_id = 0;
        last_batch_id = 0;
        last_seq_id = 1;
      },
    )
    ∷ []

read_peer_index-save_peer_index_example :
    ((read_peer_index (some (save_peer_index index)) empty_storage).1 ≡ true)
    × ((j : Key)
        → lookup j (read_peer_index (some (save_peer_index index)) empty_storage).0.peer_index
          ≡ lookup j index)
unfolding lookup same_key
read_peer_index-save_peer_index_example =
    read_peer_index-save_peer_index index empty_storage
      (
        (omega arith, omega arith, omega arith, omega arith, omega arith, omega arith, omega arith),
        (
          (
            omega arith,
            omega arith,
            omega arith,
            omega arith,
            omega arith,
            omega arith,
            omega arith,
          ),
          tt,
        ),
      )
      (refl, (refl, tt)) refl

-- A slave that has nothing of the block that holds one message.
abbrev one_log : ℕ → List Message
one_log = saved_log hello empty_file no_messages

one_saved-Logged : Logged one_saved.0 one_log
one_saved-Logged = saved-Logged hello empty_file no_messages empty_file-Logged hello-IsStorable

one_here : one_log one_saved.0.block_no ≡ [] ++ hello ∷ []
unfolding add_log append_record roll fits open_write_file contents put_file file_header record_bytes
    write_message write_im_message_v1 write_be
one_here = refl

room_left : length (file_header ++ records []) < block_size
unfolding records file_header write_be
room_left = omega arith

load_sync_messages-Logged_example :
    (bs : List Batch) × (load_sync_messages one_saved.0.disk 3
        (cursor one_saved.0 one_log one_saved-Logged [] (hello ∷ []) one_here 1)
      ≡ ok bs)
    × (all_of bs
        ≡ ids_from
            (cursor one_saved.0 one_log one_saved-Logged [] (hello ∷ []) one_here 1)
            (all_received (hello ∷ [])))
load_sync_messages-Logged_example =
    load_sync_messages-Logged one_saved.0 one_log one_saved-Logged [] (hello ∷ []) one_here 1
      room_left
