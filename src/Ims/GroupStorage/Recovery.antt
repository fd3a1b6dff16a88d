-- ===== src/Ims/GroupStorage/Recovery.antt =====
-- The index of the groups can be rebuilt from the block files: `createGroupIndex` against
-- `SaveGroupMessage` and `setGroupIndex`.
use im_service.Prelude.{ℕ, suc, ◌+◌, ◌≡◌, refl, ap, ◌∙◌, false, List, [], none, length, arith, ◌==◌}
use im_service.Core.Body.{Message, Body, OfflineMessage, cmd}
use im_service.Core.Command.{msg_group_offline, msg_group_im_list, message_creators}
use im_service.Core.Encode.{write_message}
use im_service.Core.Decode.{ok, ◌>>=◌}
use im_service.Core.RoundTrip.Sent.{received}
use im_service.Core.RoundTrip.Fields.{IsOfflineMessage}
use im_service.Core.RoundTrip.Whole.{length-write_message}
use im_service.Ims.StorageFile.{StorageFile, header_size, append_record, roll}
use im_service.Ims.StorageFile.Stored.{IsStorable, saved}
use im_service.Ims.Storage.{Storage, lookup, scan_blocks, offline_body}
use im_service.Ims.Storage.Log.{replay_blocks, scan_blocks-records}
use im_service.Ims.Storage.Logged.{Logged}
use im_service.Ims.Storage.Saves.{saved_log, saved-Logged, saved-replay, save_message-Logged}
use im_service.Ims.PeerStorage.Saves.{raise_last_id-Logged, raise_last_id-block_no}
use im_service.Ims.PeerStorage.Entries.{cmd-received, length-to_data}
use im_service.Ims.GroupStorage.Defs.{
  no_index, group, get_group_index, set_group_index, group_entry, group_entry_message,
  next_group_index, exec_group_index, save_group_message, exec_group_message, create_group_index,
}
use mathlib.Core.Option

-- The block files hold a log from which the index of the groups can be computed.
pub record GroupIndexed (s : Storage) (log : ℕ → List Message) : Type 0 where
  pub logged : Logged s.file log
  pub replays :
      (t : Storage)
      → t.group_index ≡ []
      → (t' : Storage) × (replay_blocks exec_group_message log (suc s.file.block_no) 0 t ≡ ok t')
        × (t'.group_index ≡ s.group_index)

group_entry_message-IsStorable :
    (o : OfflineMessage) → IsOfflineMessage o → IsStorable (group_entry_message o)
unfolding group_entry_message message_creators
group_entry_message-IsStorable o h =
    let len : length
          (write_message (Message.message msg_group_offline 0 0 0 (Body.offline4 o) none))
        ≡ 76 =
      length-write_message msg_group_offline 0 0 0 (Body.offline4 o) none
      ∙ ap (λ (n : ℕ). 12 + n) (length-to_data o) in
    ((omega arith, omega arith, (refl, h)), omega (arith, len))

exec_group_message-other :
    (m : Message) (id : ℕ) (t : Storage)
    → (cmd m == msg_group_im_list) ≡ false
    → (cmd m == msg_group_offline) ≡ false
    → exec_group_message (received m) id t ≡ ok t
unfolding exec_group_message
exec_group_message-other m id t h h' = rw (cmd-received m, h, h') refl

exec_group_message-entry :
    (o : OfflineMessage) (id : ℕ) (t : Storage)
    → exec_group_message (received (group_entry_message o)) id t
      ≡ ok (
          set_group_index o.appid o.receiver
            (next_group_index o.msgid id (get_group_index o.appid o.receiver t))
            t)
unfolding exec_group_message group_entry_message received exec_group_index next_group_index
    offline_body
exec_group_message-entry o id t = refl

get_group_index-same :
    (appid gid : ℕ) (s t : Storage)
    → t.group_index ≡ s.group_index
    → get_group_index appid gid t ≡ get_group_index appid gid s
unfolding get_group_index
get_group_index-same appid gid s t h =
    ap (λ i. Option.get_or (lookup (group appid gid) i) no_index) h

create_group_index-GroupIndexed :
    (s : Storage) (log : ℕ → List Message) (t : Storage)
    → GroupIndexed s log
    → t.file.disk ≡ s.file.disk
    → t.file.block_no ≡ s.file.block_no
    → t.group_index ≡ []
    → (t' : Storage) × (create_group_index t ≡ ok t') × (t'.group_index ≡ s.group_index)
unfolding create_group_index
create_group_index-GroupIndexed s log t h disk block index =
    let (t', runs, same) = h.replays t index in
    let count : t.file.block_no + 1 ≡ suc s.file.block_no = omega (arith, block) in
    let scan =
      scan_blocks-records exec_group_message t.file.disk log (suc s.file.block_no) 0 t
        (λ b lo hb. ap (λ d. d b) disk ∙ h.logged.holds b (omega arith))
        (λ b lo hb. h.logged.storable b) in
    (
      t',
      ap (λ n. scan_blocks t.file.disk exec_group_message (λ id u. false) n 0 header_size t) count
          ∙ scan
          ∙ runs,
      same,
    )

module _ (appid gid device_id : ℕ) (m : Message) (s : Storage) where
  -- The entry that `SaveGroupMessage` saves, and the file, the log and the storage behind the call.
  abbrev pub saved_group_entry : OfflineMessage
  saved_group_entry =
      group_entry appid gid device_id (saved m s.file).1 (get_group_index appid gid s)

  abbrev pub group_file : StorageFile × ℕ
  group_file = saved (group_entry_message saved_group_entry) (saved m s.file).0

  abbrev pub saved_group : Storage
  saved_group =
      set_group_index appid gid
        (next_group_index (saved m s.file).1 group_file.1 (get_group_index appid gid s))
        (record s { file = group_file.0 })

  abbrev pub saved_group_log : (ℕ → List Message) → ℕ → List Message
  saved_group_log log =
      saved_log (group_entry_message saved_group_entry) (saved m s.file).0 (saved_log m s.file log)

  module _ (log : ℕ → List Message) (h : GroupIndexed s log) (hm : IsStorable m)
      (ids : IsOfflineMessage saved_group_entry) (no_list : (cmd m == msg_group_im_list) ≡ false)
      (no_entry : (cmd m == msg_group_offline) ≡ false) where
    save_group_message-saved_group :
        save_group_message appid gid device_id m s
        ≡ ok (saved_group, (saved m s.file).1, (get_group_index appid gid s).last_msgid)
    unfolding save_group_message
    save_group_message-saved_group =
        let hl = saved-Logged m s.file log h.logged hm in
        let he = group_entry_message-IsStorable saved_group_entry ids in
        rw (save_message-Logged m s.file log h.logged hm) (
          rw
            (save_message-Logged (group_entry_message saved_group_entry) (saved m s.file).0 _ hl he)
            refl)

    saved_group-GroupIndexed : GroupIndexed saved_group (saved_group_log log)
    unfolding set_group_index next_group_index append_record group_entry roll
    saved_group-GroupIndexed =
        let msgid = (saved m s.file).1 in
        let entry = group_entry_message saved_group_entry in
        let f = (saved m s.file).0 in
        let hl = saved-Logged m s.file log h.logged hm in
        let he = group_entry_message-IsStorable saved_group_entry ids in
        record {
          logged = raise_last_id-Logged group_file.1 group_file.0 _ (saved-Logged entry f _ hl he);
          replays = λ t ht.
              let (t', runs, same) = h.replays t ht in
              let old = get_group_index-same appid gid s t' same in
              let first =
                saved-replay m s.file log h.logged hm exec_group_message t
                ∙ ap (λ o. o >>= exec_group_message (received m) msgid) runs
                ∙ exec_group_message-other m msgid t' no_list no_entry in
              let both =
                saved-replay entry f _ hl he exec_group_message t
                ∙ ap (λ o. o >>= exec_group_message (received entry) group_file.1) first
                ∙ exec_group_message-entry saved_group_entry group_file.1 t' in
              (
                set_group_index appid gid
                    (next_group_index msgid group_file.1 (get_group_index appid gid t')) t',
                rw (raise_last_id-block_no group_file.1 group_file.0) both,
                rw (old, same) refl,
              );
        }

    -- Saving a message of a group (one that is no entry of a group's queue itself, can be stored,
    -- and whose entry has ids that fit an int64), in a storage whose block files determine the
    -- index of the groups, succeeds with the new message's id and the last one's id; the block
    -- files still determine the index; and a storage that starts with these files and an empty
    -- index computes by `createGroupIndex` the index that this storage has.
    pub save_group_message-create_group_index :
        (t : Storage)
        → t.file.disk ≡ saved_group.file.disk
        → t.file.block_no ≡ saved_group.file.block_no
        → t.group_index ≡ []
        → (save_group_message appid gid device_id m s
            ≡ ok (saved_group, (saved m s.file).1, (get_group_index appid gid s).last_msgid))
          × GroupIndexed saved_group (saved_group_log log)
          × ((t' : Storage) × (create_group_index t ≡ ok t')
              × (t'.group_index ≡ saved_group.group_index))
    save_group_message-create_group_index t disk block index = (
      save_group_message-saved_group,
      saved_group-GroupIndexed,
      create_group_index-GroupIndexed saved_group (saved_group_log log) t saved_group-GroupIndexed
          disk block index,
    )
