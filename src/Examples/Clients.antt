-- ===== src/Examples/Clients.antt =====
-- A client of user 12 that sends to user 14 and asks for its history.
use im_service.Prelude.{
  take, ℕ, ◌+◌, ◌-◌, ◌≤◌, ◌≡◌, refl, List, [], ◌∷◌, ◌++◌, Option, none, some, length, drop, true,
  false,
}
use im_service.Prelude.Bytes.{read_be}
use im_service.Core.Body.{Message, Body, ImMessage}
use im_service.Core.Command.{msg_im, message_creators}
use im_service.Core.Decode.{ok, from_data, from_data_kind, read_integer}
use im_service.Im.Connection.{enqueues, all_messages, new_connection, enqueues-bounded}
use im_service.Im.PeerClient.Defs.{PeerClient, PeerHistoryMessage, handle_sync_message}
use im_service.Im.PeerClient.Messages.{World, Environment, handle_im_message}
use im_service.Im.PeerClient.Decisions.{verdict, actions_of}
use im_service.Im.PeerClient.Verdicts.{relation, handle_im_message-verdict}
use im_service.Im.PeerClient.Assertions.{Decoded}
use im_service.Im.PeerClient.Syncs.{full_reply, handle_sync_message-shown}

abbrev notice : Message
notice = Message.message 29 0 0 0 (Body.sync_key 5) none

abbrev calls : List (Message × Option Message)
calls = (notice, none) ∷ (notice, some notice) ∷ []

enqueues-bounded_example :
    ((enqueues calls new_connection).messages
      ≡ drop (length (all_messages calls) - 1000) (all_messages calls))
    × (length (enqueues calls new_connection).messages ≤ 1000)
enqueues-bounded_example = enqueues-bounded calls

abbrev peer : PeerClient
peer = record { appid = 7; uid = 12; device_id = 3; sync_count = 0 }

abbrev hello_im : ImMessage
hello_im = record {
  sender = 12;
  receiver = 14;
  timestamp = 1000;
  msgid = 0;
  content = 104 ∷ 105 ∷ [];
}

-- Users 12 and 14 are friends, and 14 has 12 on the blacklist.
abbrev environment : Environment ℕ
environment = record {
  friend_permission = true;
  enable_blacklist = true;
  friend = some (λ appid uid friend_uid. true);
  blacklist = some (λ appid uid friend_uid. false);
  now = 1600000000;
  filter_dirty_word = λ content. content;
  save_peer_message = λ appid uid device_id cmd raw n. (n + 1, some (n, 0));
}

abbrev world : World ℕ
world = record {
  storages = 100;
  pool = record { items = []; item_count = 0; dirty = false; last_entry_id = 0; action_id = 0 };
  actions = [];
}

handle_im_message-verdict_example :
    let v =
      verdict environment peer 2 0 hello_im (relation environment peer 2 9 0 hello_im world) 100 in
    (w' : World ℕ) × (handle_im_message environment peer 2
        (Message.message msg_im 9 2 0 (Body.im_message hello_im) none)
        world
      ≡ ok w')
    × (w'.storages ≡ v.0)
    × (w'.actions ≡ world.actions ++ actions_of environment peer 2 9 0 hello_im v.1)
handle_im_message-verdict_example =
    handle_im_message-verdict environment peer 2 9 0 hello_im world msg_im 2 none

abbrev history : PeerHistoryMessage
history = record {
  messages =
      record { msgid = 40; device_id = 3; cmd = 29; raw = 0 ∷ 0 ∷ 0 ∷ 0 ∷ 0 ∷ 0 ∷ 0 ∷ 5 ∷ [] } ∷ [];
  last_msgid = 40;
  has_more = false;
}

history-Decoded :
    Decoded
      (record { msgid = 40; device_id = 3; cmd = 29; raw = 0 ∷ 0 ∷ 0 ∷ 0 ∷ 0 ∷ 0 ∷ 0 ∷ 5 ∷ [] })
unfolding from_data message_creators from_data_kind read_integer read_be take
history-Decoded = record { body = Body.sync_key 5; decodes = refl }

handle_sync_message-shown_example :
    handle_sync_message 0 (λ appid uid. 0) (λ appid uid device_id last_id. some history) 20 peer
    ≡ ok (record peer { sync_count = 1 }, some (full_reply 0 peer 20 history (history-Decoded, tt)))
handle_sync_message-shown_example =
    handle_sync_message-shown 0 peer (λ appid uid. 0) (λ appid uid device_id last_id. some history)
      20 20 history (history-Decoded, tt) refl refl refl
