-- ===== src/Examples/Queues.antt =====
-- The queue of user 12 behind one message, and that of user 13.
use im_service.Prelude.{ℕ, ◌≡◌, refl, false, List, [], ◌∷◌, take, arith, if◌then◌else◌}
use im_service.Prelude.Bytes.{positive64}
use im_service.Core.Decode.{ok}
use im_service.Ims.Storage.{Storage, lookup, same_key}
use im_service.Ims.PeerStorage.{
  get_peer_index, save_peer_message, load_latest_messages, load_history_messages,
}
use im_service.Ims.PeerStorage.Saves.{ui}
use im_service.Ims.PeerStorage.Queue.{Item, Queue}
use im_service.Ims.PeerStorage.Loading.{
  latest, history, load_latest_messages-Queue, load_history_messages-Queue,
}
use im_service.Ims.PeerStorage.Delivery.{
  new_item, save_peer_message-load_latest_messages, save_peer_message-Queue,
}
use im_service.Examples.Messages.{hello, hello-IsStorable}
use im_service.Examples.Files.{
  no_messages, empty_file-Logged, one_saved, empty_storage, behind, hello_entry-IsOfflineMessage,
}

empty_Queue :
    (uid : ℕ) → Queue empty_storage.file.disk (get_peer_index 7 uid empty_storage).last_id []
unfolding get_peer_index lookup
empty_Queue uid = refl

abbrev items : List Item
items = new_item 7 12 1 hello empty_storage ∷ []

save_peer_message-load_latest_messages_example :
    (save_peer_message 7 12 1 hello empty_storage
      ≡ ok (behind, one_saved.1, (ui 7 12 1 hello empty_storage).last_msgid))
    × Queue behind.file.disk (get_peer_index 7 12 behind).last_id items
    × ((t : Storage) × (load_latest_messages 2 7 12 10 behind
          ≡ ok (t, take (if positive64 10 then 10 else 1) (latest items))))
save_peer_message-load_latest_messages_example =
    save_peer_message-load_latest_messages 7 12 1 hello empty_storage no_messages empty_file-Logged
      hello-IsStorable hello_entry-IsOfflineMessage [] 2 10 (empty_Queue 12) (omega arith)

items-Queue : Queue behind.file.disk (get_peer_index 7 12 behind).last_id items
items-Queue =
    let (saves, queue, loads) =
      save_peer_message-load_latest_messages 7 12 1 hello empty_storage no_messages
        empty_file-Logged hello-IsStorable hello_entry-IsOfflineMessage [] 2 10 (empty_Queue 12)
        (omega arith) in
    queue

save_peer_message-Queue_example :
    (save_peer_message 7 12 1 hello empty_storage
      ≡ ok (behind, one_saved.1, (ui 7 12 1 hello empty_storage).last_msgid))
    × (get_peer_index 7 13 behind ≡ get_peer_index 7 13 empty_storage)
    × Queue behind.file.disk (get_peer_index 7 13 behind).last_id []
unfolding same_key
save_peer_message-Queue_example =
    save_peer_message-Queue 7 12 1 hello empty_storage no_messages empty_file-Logged
      hello-IsStorable hello_entry-IsOfflineMessage 7 13 [] refl (empty_Queue 13)

load_latest_messages-Queue_example :
    (t : Storage) × (load_latest_messages 2 7 12 0 behind
      ≡ ok (t, take (if positive64 0 then 0 else 1) (latest items)))
    × (t.file.disk ≡ behind.file.disk)
    × (t.peer_index ≡ behind.peer_index)
load_latest_messages-Queue_example =
    load_latest_messages-Queue 2 7 12 0 behind items items-Queue (omega arith)

load_history_messages-Queue_example :
    (t : Storage) × (last_msgid : ℕ) × (load_history_messages 2 7 12 5 0 3 behind
      ≡ ok (
        t,
        if positive64 3 then take 3 (history 5 items) else history 5 items,
        last_msgid,
        false,
      ))
    × (t.file.disk ≡ behind.file.disk)
    × (t.peer_index ≡ behind.peer_index)
load_history_messages-Queue_example =
    load_history_messages-Queue 2 7 12 3 behind items items-Queue (omega arith) 5
