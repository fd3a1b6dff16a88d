-- ===== src/Ims/Replication/Peers.antt =====
-- A slave keeps the files and the indexes of its master: `SaveSyncMessage` against `SavePeerMessage`.
use im_service.Prelude.{
  ℕ, ◌≡◌, refl, ap, ◌∙◌, Bool, false, List, [], ◌∷◌, ◌++◌, arith, ◌==◌, append_assoc,
}
use im_service.Core.Body.{Message, OfflineMessage, cmd}
use im_service.Core.Command.{msg_group_im_list, msg_group_offline}
use im_service.Core.Decode.{ok, ◌>>=◌}
use im_service.Core.RoundTrip.Sent.{received}
use im_service.Core.RoundTrip.Fields.{IsOfflineMessage}
use im_service.Ims.StorageFile.{StorageFile}
use im_service.Ims.StorageFile.Stored.{IsStorable, saved, saved-Ready}
use im_service.Ims.Storage.{Storage, UserIndex, raise_last_id}
use im_service.Ims.Storage.Logged.{Logged, Logged-Ready}
use im_service.Ims.PeerStorage.Defs.{
  get_peer_index, set_peer_index, peer_entry, entry_message, next_index, save_peer_message,
  is_peer_entry,
}
use im_service.Ims.PeerStorage.Entries.{
  cmd-received, get_peer_index-same, exec_peer_message-other, exec_peer_message-entry,
  entry_message-IsStorable,
}
use im_service.Ims.PeerStorage.Saves.{
  group, ui, saved_entry, saved_file, saved_peer, save_peer_message-saved_peer, raise_last_id-disk,
  raise_last_id-block_no,
}
use im_service.Ims.GroupStorage.{exec_group_message}
use im_service.Ims.Replication.Defs.{exec_message, save_sync_message}
use im_service.Ims.Replication.Slaver.{
  SameFiles, saved-ewt, synced, synced-same, save_sync_message-saved,
}

-- A storage with the same block files and the same indexes.
abbrev pub Replica : Storage → Storage → Type 0
Replica t s =
    SameFiles t.file s.file × (t.peer_index ≡ s.peer_index) × (t.group_index ≡ s.group_index)

raise_last_id-same :
    (i j : ℕ) (f g : StorageFile)
    → SameFiles f g
    → SameFiles (raise_last_id i f) (raise_last_id j g)
raise_last_id-same i j f g (h, e) =
    rw
      (
        raise_last_id-disk i f,
        raise_last_id-disk j g,
        raise_last_id-block_no i f,
        raise_last_id-block_no j g,
      )
      (h, e)

raise_last_id-ewt : (id : ℕ) (f : StorageFile) → (raise_last_id id f).ewt ≡ f.ewt
unfolding raise_last_id
raise_last_id-ewt id f = ground arith

set_peer_index-Replica :
    (appid uid : ℕ) (x y : UserIndex) (t s : Storage)
    → x ≡ y
    → Replica t s
    → Replica (set_peer_index appid uid x t) (set_peer_index appid uid y s)
unfolding set_peer_index
set_peer_index-Replica appid uid x y t s e (same, peers, groups) =
    (raise_last_id-same x.last_id y.last_id t.file s.file same, rw (e, peers) refl, groups)

-- A message of neither kind leaves the indexes as they are.
exec_message-other :
    (m : Message) (id : ℕ) (t : Storage)
    → is_peer_entry (cmd m) ≡ false
    → (cmd m == msg_group_im_list) ≡ false
    → (cmd m == msg_group_offline) ≡ false
    → exec_message (received m) id t ≡ ok t
unfolding exec_message exec_group_message
exec_message-other m id t p i o =
    rw (exec_peer_message-other m id t p) (rw (cmd-received m, i, o) refl)

exec_message-entry :
    (g : Bool) (o : OfflineMessage) (id : ℕ) (t : Storage)
    → exec_message (received (entry_message g o)) id t
      ≡ ok (
          set_peer_index o.appid o.receiver
            (next_index g o.msgid id (get_peer_index o.appid o.receiver t))
            t)
unfolding exec_message exec_group_message entry_message received
exec_message-entry g o id t =
    ap (λ r. r >>= exec_group_message (received (entry_message g o)) id)
      (exec_peer_message-entry g o id t)

module _ (appid uid device_id : ℕ) (m : Message) (s t : Storage) (log : ℕ → List Message)
    (h : Logged s.file log) (hm : IsStorable m)
    (ids : IsOfflineMessage (saved_entry appid uid device_id m s)) (replica : Replica t s) where
  abbrev entry : Message
  entry = entry_message (group appid uid device_id m s) (saved_entry appid uid device_id m s)

  abbrev first : Storage
  first = record t { file = synced m s t replica.0 (Logged-Ready h) hm }

  saved_peer-ewt :
      (saved_peer appid uid device_id m s).file.ewt
      ≡ s.file.ewt ++ ((saved m s.file).1, m) ∷ ((saved_file appid uid device_id m s).1, entry) ∷ []
  unfolding set_peer_index raise_last_id
  saved_peer-ewt =
      raise_last_id-ewt _ (saved_file appid uid device_id m s).0
      ∙ saved-ewt entry (saved m s.file).0
      ∙ ap (λ (w : List (ℕ × Message)). w ++ ((saved_file appid uid device_id m s).1, entry) ∷ [])
          (saved-ewt m s.file)
      ∙ append_assoc s.file.ewt _ _

  module _ (p : is_peer_entry (cmd m) ≡ false) (i : (cmd m == msg_group_im_list) ≡ false)
      (o : (cmd m == msg_group_offline) ≡ false) where
    -- Take a storage whose block files hold a log, a message that can be stored, is no queue entry
    -- of a user or a group itself and whose entry has ids that fit an int64, and a slave with the
    -- same block files, the same last block and the same indexes. `SavePeerMessage` of the message
    -- succeeds and sends it and its entry to `master.ewt`; the slave that calls `SaveSyncMessage`
    -- with these two, as they arrive, has the master's new block files, last block and indexes,
    -- also where a save opens a new block.
    pub save_peer_message-save_sync_message :
        (save_peer_message appid uid device_id m s
          ≡ ok (
            saved_peer appid uid device_id m s,
            (saved m s.file).1,
            (ui appid uid device_id m s).last_msgid,
          ))
        × ((saved_peer appid uid device_id m s).file.ewt
            ≡ s.file.ewt
              ++ ((saved m s.file).1, m) ∷ ((saved_file appid uid device_id m s).1, entry) ∷ [])
        × ((t' : Storage) × ((save_sync_message (saved m s.file).1 (received m) t
                >>= save_sync_message (saved_file appid uid device_id m s).1 (received entry))
              ≡ ok t')
            × Replica t' (saved_peer appid uid device_id m s))
    unfolding peer_entry
    save_peer_message-save_sync_message =
        let r = Logged-Ready h in
        let s1 : Storage = record s { file = (saved m s.file).0 } in
        let same = synced-same m s t replica.0 r hm in
        let r1 = saved-Ready m s.file r hm in
        let g = group appid uid device_id m s in
        let e = saved_entry appid uid device_id m s in
        let he = entry_message-IsStorable g e ids in
        let id = (saved_file appid uid device_id m s).1 in
        let second : Storage = record first { file = synced entry s1 first same r1 he } in
        let one =
          save_sync_message-saved m s t replica.0 r hm ∙ exec_message-other m _ first p i o in
        let two =
          save_sync_message-saved entry s1 first same r1 he ∙ exec_message-entry g e id second in
        let next = next_index g (saved m s.file).1 id in
        (
          save_peer_message-saved_peer appid uid device_id m s log h hm ids,
          saved_peer-ewt,
          (
            set_peer_index appid uid (next (get_peer_index appid uid second)) second,
            ap (λ q. q >>= save_sync_message id (received entry)) one ∙ two,
            set_peer_index-Replica appid uid _ _ second
                (record s { file = (saved_file appid uid device_id m s).0 })
                (ap next (get_peer_index-same appid uid s second replica.1))
                (synced-same entry s1 first same r1 he, replica.1, replica.2),
          ),
        )
