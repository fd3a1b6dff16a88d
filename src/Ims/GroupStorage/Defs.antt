-- ===== src/Ims/GroupStorage/Defs.antt =====
-- The index of the groups, the calls that save and load their messages, and the scans.
use im_service.Prelude.{
  ℕ, zero, suc, ◌+◌, ◌-◌, ◌%◌, Bool, true, false, not, ◌||◌, List, [], ◌∷◌, ◌++◌, Option, none,
  some, length, ltb, ◌==◌, if◌then◌else◌,
}
use im_service.Prelude.Bytes.{lt64, le64, at_limit}
use im_service.Core.Body.{Message, Body, Nested, OfflineMessage, cmd, body}
use im_service.Core.Command.{msg_group_im, msg_group_offline, msg_group_im_list}
use im_service.Core.Decode.{Outcome, ok, panic, stuck, ◌>>=◌}
use im_service.Ims.StorageFile.{
  StorageFile, header_size, save_message, load_message, get_block_no, get_block_offset,
}
use im_service.Ims.Storage.{
  Key, GroupIndex, Storage, EMessage, lookup, insert, batch_size, offline_body, raise_last_id,
  scan_blocks,
}
use im_service.Ims.PeerStorage.{load_entry}
use mathlib.Core.Option

abbrev pub no_index : GroupIndex
no_index = record { last_msgid = 0; last_id = 0; last_batch_id = 0; last_seq_id = 0 }

abbrev pub group : ℕ → ℕ → Key
group appid gid = record { appid = appid; id = gid }

unfoldable pub get_group_index : ℕ → ℕ → Storage → GroupIndex
get_group_index appid gid s = Option.get_or (lookup (group appid gid) s.group_index) no_index

unfoldable pub set_group_index : ℕ → ℕ → GroupIndex → Storage → Storage
set_group_index appid gid gi s = record s {
  file = raise_last_id gi.last_id s.file;
  group_index = insert (group appid gid) gi s.group_index;
}

-- The entry of the queue for the message saved under `msgid`, and the message that carries it.
unfoldable pub group_entry : ℕ → ℕ → ℕ → ℕ → GroupIndex → OfflineMessage
group_entry appid gid device_id msgid gi = record {
  appid = appid;
  receiver = gid;
  msgid = msgid;
  device_id = device_id;
  seq_id = gi.last_seq_id + 1;
  prev_msgid = gi.last_id;
  prev_peer_msgid = 0;
  prev_batch_msgid = gi.last_batch_id;
}

unfoldable pub group_entry_message : OfflineMessage → Message
group_entry_message off = Message.message msg_group_offline 0 0 0 (Body.offline4 off) none

-- The index behind an entry `id` for the message `msgid`.
unfoldable pub next_group_index : ℕ → ℕ → GroupIndex → GroupIndex
next_group_index msgid id gi =
    let last_seq_id = gi.last_seq_id + 1 in
    record {
      last_msgid = msgid;
      last_id = id;
      last_batch_id = if last_seq_id % batch_size == 0 then id else gi.last_batch_id;
      last_seq_id = last_seq_id;
    }

-- `SaveGroupMessage`: the id of the message, and that of the group's message before it.
unfoldable pub save_group_message : ℕ → ℕ → ℕ → Message → Storage → Outcome (Storage × ℕ × ℕ)
save_group_message appid gid device_id m s = do
  (f, msgid) ← save_message m s.file
  let gi = get_group_index appid gid s
  (f', id) ← save_message (group_entry_message (group_entry appid gid device_id msgid gi)) f
  let s' = set_group_index appid gid (next_group_index msgid id gi) (record s { file = f' })
  ok (s', msgid, gi.last_msgid)

-- A timestamp is an int32: the order of the numbers that the patterns stand for.
unfoldable pub earlier : ℕ → ℕ → Bool
earlier a b = ltb ((a + 0x8000_0000) % 0x1_0000_0000) ((b + 0x8000_0000) % 0x1_0000_0000)

-- The test of a message in `LoadGroupHistoryMessages`: it was sent before the user joined the group.
-- With `msgid == 0` it reads the command of a message that may be nil, and the body of an
-- `MSG_GROUP_IM`; both panic if they are not there.
unfoldable pub is_before : ℕ → ℕ → Option Message → Outcome Bool
is_before msgid ts m = if not (msgid == 0) then ok false else elim m [
  | none ↦ panic
  | some x ↦
      if not (cmd x == msg_group_im)
      then ok false
      else elim (body x) [ Body.im_message im ↦ ok (earlier im.timestamp ts) | _ ↦ panic ]
]

abbrev or_nil_ref : Option Message → Nested
or_nil_ref none = Nested.nil
or_nil_ref (some m) = Nested.ref m

-- The loop of `LoadGroupHistoryMessages`; the fuel is the number of entries visited at most.
unfoldable pub group_walk :
    ℕ
    → (msgid ts limit last_id last_msgid : ℕ) → List EMessage
    → StorageFile
    → Outcome (StorageFile × List EMessage × ℕ)
group_walk zero msgid ts limit last_id last_msgid c f = stuck
group_walk (suc fuel) msgid ts limit last_id last_msgid c f = elim (lt64 0 last_id) [
  | false ↦ ok (f, c, last_msgid)
  | true ↦ do
    (f', entry) ← load_entry last_id f
    elim entry [
      | none ↦ ok (f', c, last_msgid)
      | some off ↦
          let newest = if last_msgid == 0 then off.msgid else last_msgid in
          elim (off.msgid == 0 || le64 off.msgid msgid) [
            | true ↦ ok (f', c, newest)
            | false ↦ do
              (f'', m) ← load_message off.msgid f'
              before ← is_before msgid ts m
              let emsg : EMessage = record {
                msg_id = off.msgid;
                device_id = off.device_id;
                msg = or_nil_ref m;
              }
              elim before [
                | true ↦ ok (f'', c, newest)
                | false ↦ elim (at_limit limit (length (c ++ emsg ∷ []))) [
                  | true ↦ ok (f'', c ++ emsg ∷ [], newest)
                  | false ↦
                      group_walk fuel msgid ts limit off.prev_msgid newest (c ++ emsg ∷ []) f''
                ]
              ]
          ]
    ]
]

-- `LoadGroupHistoryMessages`: the group's messages behind `msgid`, the newest first, and the id of
-- the newest.
unfoldable pub load_group_history_messages :
    ℕ → ℕ → ℕ → ℕ → ℕ → ℕ → Storage → Outcome (Storage × List EMessage × ℕ)
load_group_history_messages fuel appid gid msgid ts limit s = do
  (f, c, last_msgid) ←
      group_walk fuel msgid ts limit (get_group_index appid gid s).last_id 0 [] s.file
  ok (record s { file = f }, c, last_msgid)

-- What `execMessage` makes of an entry of the queue: the group's new index.
unfoldable pub exec_group_index : OfflineMessage → ℕ → GroupIndex → GroupIndex
exec_group_index off msgid gi =
    let last_seq_id = gi.last_seq_id + 1 in
    record {
      last_msgid = off.msgid;
      last_id = msgid;
      last_batch_id = if last_seq_id % batch_size == 0 then msgid else gi.last_batch_id;
      last_seq_id = last_seq_id;
    }

-- `GroupStorage.execMessage`. The type assertions panic on a body that is no queue entry.
unfoldable pub exec_group_message : Message → ℕ → Storage → Outcome Storage
exec_group_message m msgid s =
    if cmd m == msg_group_im_list
    then elim (body m) [
      | Body.group_offline off ↦ ok (
          set_group_index off.appid off.receiver
            (record { last_msgid = off.msgid; last_id = msgid; last_batch_id = 0; last_seq_id = 0 })
            s)
      | _ ↦ panic
    ]
    else if cmd m == msg_group_offline
    then elim (offline_body (body m)) [
      | none ↦ panic
      | some off ↦ ok (
          set_group_index off.appid off.receiver
            (exec_group_index off msgid (get_group_index off.appid off.receiver s)) s)
    ]
    else ok s

-- `createGroupIndex`.
unfoldable pub create_group_index : Storage → Outcome Storage
create_group_index s =
    scan_blocks s.file.disk exec_group_message (λ id t. false) (s.file.block_no + 1) 0 header_size s

-- `repairGroupIndex`: from the last indexed message on, which is not passed over.
unfoldable pub repair_group_index : Storage → Outcome Storage
repair_group_index s =
    let first = get_block_no s.file.last_id in
    scan_blocks s.file.disk exec_group_message (λ id t. false) (s.file.block_no + 1 - first) first
      (get_block_offset s.file.last_id) s
