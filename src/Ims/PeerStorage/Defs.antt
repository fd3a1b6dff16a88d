-- ===== src/Ims/PeerStorage/Defs.antt =====
-- The index of the users, and the calls that save messages.
use Prim.Native.Nat.{bit_and}
use im_service.Prelude.{
  ℕ, ◌+◌, ◌-◌, ◌%◌, Bool, false, not, ◌||◌, List, [], ◌∷◌, none, some, ◌==◌, if◌then◌else◌,
}
use im_service.Core.Body.{Message, Body, OfflineMessage, cmd, flag, body}
use im_service.Core.Command.{
  msg_group_im, msg_offline, msg_offline_v2, msg_offline_v3, msg_offline_v4, message_flag_group,
}
use im_service.Core.Decode.{Outcome, ok, panic, ◌>>=◌}
use im_service.Ims.StorageFile.{header_size, save_message, get_block_no, get_block_offset}
use im_service.Ims.Storage.{
  Key, UserIndex, Storage, lookup, insert, batch_size, offline_body, raise_last_id, scan_blocks,
}
use mathlib.Core.Option

abbrev pub no_index : UserIndex
no_index = record {
  last_msgid = 0;
  last_id = 0;
  last_peer_id = 0;
  last_batch_id = 0;
  last_seq_id = 0;
}

abbrev pub user : ℕ → ℕ → Key
user appid uid = record { appid = appid; id = uid }

unfoldable pub get_peer_index : ℕ → ℕ → Storage → UserIndex
get_peer_index appid receiver s = Option.get_or (lookup (user appid receiver) s.peer_index) no_index

unfoldable pub set_peer_index : ℕ → ℕ → UserIndex → Storage → Storage
set_peer_index appid receiver ui s = record s {
  file = raise_last_id ui.last_id s.file;
  peer_index = insert (user appid receiver) ui s.peer_index;
}

-- `getLastMessageID`.
unfoldable pub get_last_message_id : ℕ → ℕ → Storage → ℕ × ℕ
get_last_message_id appid receiver s =
    let ui = get_peer_index appid receiver s in (ui.last_id, ui.last_peer_id)

unfoldable pub has_group_flag : Message → Bool
has_group_flag m = not (bit_and (flag m) message_flag_group == 0)

unfoldable pub is_group_message : Message → Bool
is_group_message m = cmd m == msg_group_im || has_group_flag m

-- The entry of the queue for the message saved under `msgid`, and the message that carries it.
unfoldable pub peer_entry : ℕ → ℕ → ℕ → ℕ → UserIndex → OfflineMessage
peer_entry appid uid device_id msgid ui = record {
  appid = appid;
  receiver = uid;
  msgid = msgid;
  device_id = device_id;
  seq_id = ui.last_seq_id + 1;
  prev_msgid = ui.last_id;
  prev_peer_msgid = ui.last_peer_id;
  prev_batch_msgid = ui.last_batch_id;
}

unfoldable pub entry_message : Bool → OfflineMessage → Message
entry_message group off =
    Message.message msg_offline_v4 0 0 (if group then message_flag_group else 0) (Body.offline4 off)
      none

-- The index behind an entry `id` for the message `msgid`.
unfoldable pub next_index : Bool → ℕ → ℕ → UserIndex → UserIndex
next_index group msgid id ui =
    let last_seq_id = ui.last_seq_id + 1 in
    record {
      last_msgid = msgid;
      last_id = id;
      last_peer_id = if group then ui.last_peer_id else id;
      last_batch_id = if last_seq_id % batch_size == 0 then id else ui.last_batch_id;
      last_seq_id = last_seq_id;
    }

-- `SavePeerMessage`: the id of the message, and that of the user's message before it.
unfoldable pub save_peer_message : ℕ → ℕ → ℕ → Message → Storage → Outcome (Storage × ℕ × ℕ)
save_peer_message appid uid device_id m s = do
  (f, msgid) ← save_message m s.file
  let ui = get_peer_index appid uid s
  let group = is_group_message m
  (f', id) ← save_message (entry_message group (peer_entry appid uid device_id msgid ui)) f
  let s' = set_peer_index appid uid (next_index group msgid id ui) (record s { file = f' })
  ok (s', msgid, ui.last_msgid)

-- `SavePeerGroupMessage`: for each member the id of the message and that of the one before it.
unfoldable pub save_peer_group_message :
    ℕ → List ℕ → ℕ → Message → Storage → Outcome (Storage × List ℕ)
save_peer_group_message appid [] device_id m s = ok (s, [])
save_peer_group_message appid (uid ∷ members) device_id m s = do
  (s', msgid, prev_msgid) ← save_peer_message appid uid device_id m s
  (s'', r) ← save_peer_group_message appid members device_id m s'
  ok (s'', msgid ∷ prev_msgid ∷ r)

-- What `execMessage` makes of a queue entry, by the version of the entry: the user's new index.
unfoldable pub exec_index : ℕ → Bool → OfflineMessage → ℕ → UserIndex → UserIndex
exec_index command group off msgid ui =
    if command == msg_offline
    then record {
      last_msgid = off.msgid;
      last_id = msgid;
      last_peer_id = msgid;
      last_batch_id = 0;
      last_seq_id = 0;
    }
    else if command == msg_offline_v2
    then record {
      last_msgid = off.msgid;
      last_id = msgid;
      last_peer_id = if group then ui.last_peer_id else msgid;
      last_batch_id = 0;
      last_seq_id = 0;
    }
    else let last_seq_id = ui.last_seq_id + 1 in
      record {
        last_msgid = off.msgid;
        last_id = msgid;
        last_peer_id = if group then ui.last_peer_id else msgid;
        last_batch_id = if last_seq_id % batch_size == 0 then msgid else ui.last_batch_id;
        last_seq_id = last_seq_id;
      }

unfoldable pub is_peer_entry : ℕ → Bool
is_peer_entry command =
    command == msg_offline
    || command == msg_offline_v2
    || command == msg_offline_v3
    || command == msg_offline_v4

-- `PeerStorage.execMessage`. The type assertion panics on a body that is no queue entry.
unfoldable pub exec_peer_message : Message → ℕ → Storage → Outcome Storage
exec_peer_message m msgid s =
    if is_peer_entry (cmd m)
    then elim (offline_body (body m)) [
      | none ↦ panic
      | some off ↦ ok (
          set_peer_index off.appid off.receiver
            (exec_index (cmd m) (has_group_flag m) off msgid
              (get_peer_index off.appid off.receiver s))
            s)
    ]
    else ok s

-- `createPeerIndex`: every message of every block.
unfoldable pub create_peer_index : Storage → Outcome Storage
create_peer_index s =
    scan_blocks s.file.disk exec_peer_message (λ id t. false) (s.file.block_no + 1) 0 header_size s

-- `repairPeerIndex`: from the last indexed message on, which is passed over.
unfoldable pub repair_peer_index : Storage → Outcome Storage
repair_peer_index s =
    let first = get_block_no s.file.last_id in
    scan_blocks s.file.disk exec_peer_message (λ id t. id == t.file.last_id)
      (s.file.block_no + 1 - first) first (get_block_offset s.file.last_id) s
