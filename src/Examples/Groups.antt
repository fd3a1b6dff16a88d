-- ===== src/Examples/Groups.antt =====
-- One message for group 90 in an empty storage.
use im_service.Prelude.{◌≡◌, refl, arith}
use im_service.Prelude.Bytes.{write_be}
use im_service.Core.Encode.{write_message, write_im_message_v1}
use im_service.Core.Decode.{ok}
use im_service.Core.RoundTrip.Fields.{IsOfflineMessage}
use im_service.Ims.StorageFile.{
  contents, put_file, fits, roll, append_record, open_write_file, file_header, record_bytes,
}
use im_service.Ims.Storage.{Storage, lookup}
use im_service.Ims.Storage.Log.{replay_blocks, replay_file}
use im_service.Ims.GroupStorage.{
  get_group_index, group_entry, save_group_message, create_group_index,
}
use im_service.Ims.GroupStorage.Recovery.{
  GroupIndexed, saved_group_entry, saved_group, saved_group_log,
  save_group_message-create_group_index,
}
use im_service.Examples.Messages.{hello, hello-IsStorable}
use im_service.Examples.Files.{no_messages, empty_file-Logged, one_saved, empty_storage}

empty_storage-GroupIndexed : GroupIndexed empty_storage no_messages
unfolding replay_blocks replay_file open_write_file
empty_storage-GroupIndexed = record { logged = empty_file-Logged; replays = λ t h. (t, refl, h) }

group_entry-IsOfflineMessage : IsOfflineMessage (saved_group_entry 7 90 1 hello empty_storage)
unfolding group_entry get_group_index lookup append_record roll fits open_write_file contents
    put_file file_header record_bytes write_message write_im_message_v1 write_be
group_entry-IsOfflineMessage = record {
  appid = omega arith;
  receiver = omega arith;
  msgid = omega arith;
  device_id = omega arith;
  seq_id = omega arith;
  prev_msgid = omega arith;
  prev_peer_msgid = omega arith;
  prev_batch_msgid = omega arith;
}

abbrev in_group : Storage
in_group = saved_group 7 90 1 hello empty_storage

abbrev restarted : Storage
restarted = record empty_storage { file = in_group.file }

save_group_message-create_group_index_example :
    (save_group_message 7 90 1 hello empty_storage
      ≡ ok (in_group, one_saved.1, (get_group_index 7 90 empty_storage).last_msgid))
    × GroupIndexed in_group (saved_group_log 7 90 1 hello empty_storage no_messages)
    × ((t : Storage) × (create_group_index restarted ≡ ok t)
        × (t.group_index ≡ in_group.group_index))
save_group_message-create_group_index_example =
    save_group_message-create_group_index 7 90 1 hello empty_storage no_messages
      empty_storage-GroupIndexed hello-IsStorable group_entry-IsOfflineMessage refl refl restarted
      refl refl refl
