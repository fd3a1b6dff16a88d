-- ===== src/Ims/PeerStorage/Recovery.antt =====
-- The index of the users can be rebuilt from the block files: `createPeerIndex` against
-- `SavePeerMessage` and `setPeerIndex`.
use im_service.Prelude.{ℕ, suc, ◌+◌, ◌≡◌, refl, ap, ◌∙◌, false, List, [], some, arith}
use im_service.Core.Body.{Message, cmd}
use im_service.Core.Decode.{ok, ◌>>=◌}
use im_service.Core.RoundTrip.Sent.{received}
use im_service.Core.RoundTrip.Fields.{IsOfflineMessage}
use im_service.Ims.StorageFile.{header_size, load_message, append_record, roll}
use im_service.Ims.StorageFile.Stored.{
  IsStorable, loaded, saved, saved-Ready, saved-Stored, saved-keeps,
}
use im_service.Ims.Storage.{Storage, scan_blocks}
use im_service.Ims.Storage.Log.{replay_blocks, scan_blocks-records}
use im_service.Ims.Storage.Logged.{Logged, Logged-Ready}
use im_service.Ims.Storage.Saves.{saved-Logged, saved-replay}
use im_service.Ims.PeerStorage.Defs.{
  get_peer_index, set_peer_index, peer_entry, entry_message, next_index, save_peer_message,
  is_peer_entry, exec_peer_message, create_peer_index,
}
use im_service.Ims.PeerStorage.Saves.{
  group, ui, saved_entry, saved_file, saved_peer, saved_peer_log, saved_peer-loads,
  save_peer_message-saved_peer, raise_last_id-Logged, raise_last_id-block_no,
}
use im_service.Ims.PeerStorage.Entries.{
  entry_message-IsStorable, get_peer_index-same, exec_peer_message-other, exec_peer_message-entry,
}

-- The block files hold a log from which the index of the users can be computed.
pub record Indexed (s : Storage) (log : ℕ → List Message) : Type 0 where
  pub logged : Logged s.file log
  pub replays :
      (t : Storage)
      → t.peer_index ≡ []
      → (t' : Storage) × (replay_blocks exec_peer_message log (suc s.file.block_no) 0 t ≡ ok t')
        × (t'.peer_index ≡ s.peer_index)

-- A storage that starts with these files and no index computes the index.
pub create_peer_index-Indexed :
    (s : Storage) (log : ℕ → List Message) (t : Storage)
    → Indexed s log
    → t.file.disk ≡ s.file.disk
    → t.file.block_no ≡ s.file.block_no
    → t.peer_index ≡ []
    → (t' : Storage) × (create_peer_index t ≡ ok t') × (t'.peer_index ≡ s.peer_index)
unfolding create_peer_index
create_peer_index-Indexed s log t h disk block index =
    let (t', runs, same) = h.replays t index in
    let count : t.file.block_no + 1 ≡ suc s.file.block_no = omega (arith, block) in
    let scan =
      scan_blocks-records exec_peer_message t.file.disk log (suc s.file.block_no) 0 t
        (λ b lo hb. ap (λ d. d b) disk ∙ h.logged.holds b (omega arith))
        (λ b lo hb. h.logged.storable b) in
    (
      t',
      ap (λ n. scan_blocks t.file.disk exec_peer_message (λ id u. false) n 0 header_size t) count
          ∙ scan
          ∙ runs,
      same,
    )

module _ (appid uid device_id : ℕ) (m : Message) (s : Storage) where
  module _ (log : ℕ → List Message) (h : Indexed s log) (hm : IsStorable m)
      (ids : IsOfflineMessage (saved_entry appid uid device_id m s))
      (other : is_peer_entry (cmd m) ≡ false) where
    saved_peer-Indexed :
        Indexed (saved_peer appid uid device_id m s) ((saved_peer_log appid uid device_id m s) log)
    unfolding set_peer_index next_index append_record peer_entry roll
    saved_peer-Indexed =
        let msgid = (saved m s.file).1 in
        let entry =
          entry_message (group appid uid device_id m s) (saved_entry appid uid device_id m s) in
        let f = (saved m s.file).0 in
        let hl = saved-Logged m s.file log h.logged hm in
        let he =
          entry_message-IsStorable (group appid uid device_id m s)
            (saved_entry appid uid device_id m s) ids in
        let next =
          next_index (group appid uid device_id m s) msgid (saved_file appid uid device_id m s).1 in
        record {
          logged =
              raise_last_id-Logged (saved_file appid uid device_id m s).1
                (saved_file appid uid device_id m s).0 _ (saved-Logged entry f _ hl he);
          replays = λ t ht.
              let (t', runs, same) = h.replays t ht in
              let old = get_peer_index-same appid uid s t' same in
              let first =
                saved-replay m s.file log h.logged hm exec_peer_message t
                ∙ ap (λ o. o >>= exec_peer_message (received m) msgid) runs
                ∙ exec_peer_message-other m msgid t' other in
              let both =
                saved-replay entry f _ hl he exec_peer_message t
                ∙ ap
                    (λ o.
                      o
                      >>= exec_peer_message (received entry) (saved_file appid uid device_id m s).1)
                    first
                ∙ exec_peer_message-entry (group appid uid device_id m s)
                    (saved_entry appid uid device_id m s) (saved_file appid uid device_id m s).1
                    t' in
              (
                set_peer_index appid uid (next (get_peer_index appid uid t')) t',
                rw
                    (raise_last_id-block_no (saved_file appid uid device_id m s).1
                      (saved_file appid uid device_id m s).0)
                    both,
                rw (old, same) refl,
              );
        }

    -- Saving a message of a user (one that is no queue entry itself, can be stored, and whose entry
    -- has ids that fit an int64), in a storage whose block files determine its index, succeeds with
    -- the new message's id and the last one's id; both the message and its entry can be loaded by
    -- the ids that the index then holds; the block files still determine the index; and a storage
    -- that starts with these files and an empty index computes by `createPeerIndex` the index that
    -- this storage has.
    pub save_peer_message-create_peer_index :
        (t : Storage)
        → t.file.disk ≡ (saved_peer appid uid device_id m s).file.disk
        → t.file.block_no ≡ (saved_peer appid uid device_id m s).file.block_no
        → t.peer_index ≡ []
        → (save_peer_message appid uid device_id m s
            ≡ ok (
              (saved_peer appid uid device_id m s),
              (saved m s.file).1,
              (ui appid uid device_id m s).last_msgid,
            ))
          × (loaded (load_message (saved m s.file).1 (saved_peer appid uid device_id m s).file)
              ≡ some (received m))
          × (loaded (
                load_message
                  (saved_file appid uid device_id m s).1
                  (saved_peer appid uid device_id m s).file)
              ≡ some (
                  received (
                    entry_message
                      (group appid uid device_id m s)
                      (saved_entry appid uid device_id m s))))
          × Indexed
              (saved_peer appid uid device_id m s)
              ((saved_peer_log appid uid device_id m s) log)
          × ((t' : Storage) × (create_peer_index t ≡ ok t')
              × (t'.peer_index ≡ (saved_peer appid uid device_id m s).peer_index))
    save_peer_message-create_peer_index t disk block index =
        let entry =
          entry_message (group appid uid device_id m s) (saved_entry appid uid device_id m s) in
        let f = (saved m s.file).0 in
        let ready = saved-Ready m s.file (Logged-Ready h.logged) hm in
        let he =
          entry_message-IsStorable (group appid uid device_id m s)
            (saved_entry appid uid device_id m s) ids in
        (
          save_peer_message-saved_peer appid uid device_id m s log h.logged hm ids,
          (saved_peer-loads appid uid device_id m s) (saved m s.file).1 m (
              saved-keeps entry f ready he (saved m s.file).1 m
                (saved-Stored m s.file (Logged-Ready h.logged) hm)),
          (saved_peer-loads appid uid device_id m s) (saved_file appid uid device_id m s).1 entry
              (saved-Stored entry f ready he),
          saved_peer-Indexed,
          create_peer_index-Indexed (saved_peer appid uid device_id m s)
              ((saved_peer_log appid uid device_id m s) log) t saved_peer-Indexed disk block index,
        )
