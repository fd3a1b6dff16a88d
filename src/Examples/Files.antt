-- ===== src/Examples/Files.antt =====
-- A storage in an empty directory, and one message for user 12.
use im_service.Prelude.{
  ℕ, suc, ◌+◌, ◌≡◌, refl, false, List, [], ◌∷◌, ◌++◌, Option, none, some, arith,
}
use im_service.Prelude.Bytes.{Bytes, write_be}
use im_service.Core.Body.{Message}
use im_service.Core.Encode.{write_message, write_im_message_v1}
use im_service.Core.Decode.{Outcome, ok, ◌>>=◌}
use im_service.Core.RoundTrip.Fields.{IsOfflineMessage}
use im_service.Core.RoundTrip.Sent.{received}
use im_service.Ims.StorageFile.{
  StorageFile, header_size, file_header, contents, put_file, open_write_file, append_record, roll,
  fits, new_storage_file, save_message, load_message, record_bytes,
}
use im_service.Ims.StorageFile.Stored.{saved, loaded}
use im_service.Ims.Storage.{Storage, lookup, scan_blocks}
use im_service.Ims.Storage.Log.{records, replay_blocks, replay_file, scan_blocks-records}
use im_service.Ims.Storage.Logged.{Logged, blank, new_storage_file-Logged}
use im_service.Ims.Storage.Saves.{saved_log, saved-Logged, saved-scan_blocks}
use im_service.Ims.PeerStorage.{
  get_peer_index, is_peer_entry, save_peer_message, create_peer_index, entry_message, peer_entry,
}
use im_service.Ims.PeerStorage.Saves.{
  group, ui, saved_entry, saved_file, saved_peer, saved_peer_log,
}
use im_service.Ims.PeerStorage.Recovery.{Indexed, save_peer_message-create_peer_index}
use im_service.Examples.Messages.{hello, hello-IsStorable}

abbrev pub no_files : ℕ → Option Bytes
no_files b = none

abbrev pub empty_file : StorageFile
empty_file = open_write_file 0 (blank no_files)

abbrev pub no_messages : ℕ → List Message
no_messages b = []

new_storage_file-Logged_example :
    (new_storage_file [] no_files ≡ ok empty_file) × Logged empty_file no_messages
new_storage_file-Logged_example = new_storage_file-Logged no_files (λ b. refl)

pub empty_file-Logged : Logged empty_file no_messages
empty_file-Logged = (new_storage_file-Logged no_files (λ b. refl)).1

abbrev pub one_saved : StorageFile × ℕ
one_saved = saved hello empty_file

saved-Logged_example : Logged one_saved.0 (saved_log hello empty_file no_messages)
saved-Logged_example = saved-Logged hello empty_file no_messages empty_file-Logged hello-IsStorable

-- A scan that counts the messages.
abbrev count : Message → ℕ → ℕ → Outcome ℕ
count m id n = ok (n + 1)

saved-scan_blocks_example :
    (save_message hello empty_file ≡ ok one_saved)
    × (scan_blocks one_saved.0.disk count (λ id t. false) (suc one_saved.0.block_no) 0 header_size 5
        ≡ (scan_blocks empty_file.disk count
              (λ id t. false)
              (suc empty_file.block_no)
              0
              header_size
              5
            >>= count (received hello) one_saved.1))
saved-scan_blocks_example =
    saved-scan_blocks hello empty_file no_messages empty_file-Logged hello-IsStorable count 5

abbrev two_logged : ℕ → List Message
two_logged b = hello ∷ hello ∷ []

abbrev two_on_disk : ℕ → Option Bytes
two_on_disk b = some (file_header ++ records (two_logged b))

scan_blocks-records_example :
    scan_blocks two_on_disk count (λ id t. false) 3 0 header_size 0
    ≡ replay_blocks count two_logged 3 0 0
scan_blocks-records_example =
    scan_blocks-records count two_on_disk two_logged 3 0 0 (λ b lo hi. refl)
      (λ b lo hi. (hello-IsStorable, (hello-IsStorable, tt)))

abbrev pub empty_storage : Storage
empty_storage = record { file = empty_file; peer_index = []; group_index = [] }

empty_storage-Indexed : Indexed empty_storage no_messages
unfolding replay_blocks replay_file open_write_file
empty_storage-Indexed = record { logged = empty_file-Logged; replays = λ t h. (t, refl, h) }

-- The storage behind the message, and one that starts with its files.
abbrev pub behind : Storage
behind = saved_peer 7 12 1 hello empty_storage

abbrev restarted : Storage
restarted = record empty_storage { file = behind.file }

pub hello_entry-IsOfflineMessage : IsOfflineMessage (saved_entry 7 12 1 hello empty_storage)
unfolding peer_entry get_peer_index lookup append_record roll fits open_write_file contents put_file
    file_header record_bytes write_message write_im_message_v1 write_be
hello_entry-IsOfflineMessage = record {
  appid = omega arith;
  receiver = omega arith;
  msgid = omega arith;
  device_id = omega arith;
  seq_id = omega arith;
  prev_msgid = omega arith;
  prev_peer_msgid = omega arith;
  prev_batch_msgid = omega arith;
}

save_peer_message-create_peer_index_example :
    (save_peer_message 7 12 1 hello empty_storage
      ≡ ok (behind, one_saved.1, (ui 7 12 1 hello empty_storage).last_msgid))
    × (loaded (load_message one_saved.1 behind.file) ≡ some (received hello))
    × (loaded (load_message (saved_file 7 12 1 hello empty_storage).1 behind.file)
        ≡ some (
            received (
              entry_message
                (group 7 12 1 hello empty_storage)
                (saved_entry 7 12 1 hello empty_storage))))
    × Indexed behind (saved_peer_log 7 12 1 hello empty_storage no_messages)
    × ((t : Storage) × (create_peer_index restarted ≡ ok t) × (t.peer_index ≡ behind.peer_index))
unfolding is_peer_entry
save_peer_message-create_peer_index_example =
    save_peer_message-create_peer_index 7 12 1 hello empty_storage no_messages empty_storage-Indexed
      hello-IsStorable hello_entry-IsOfflineMessage refl restarted refl refl refl
