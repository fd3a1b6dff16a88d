-- ===== src/Ims/PeerStorage/Saves.antt =====
-- What `SavePeerMessage` does to the files and to the index.
use im_service.Prelude.{ℕ, ◌≡◌, refl, ap, Bool, List, some, arith, ltb, Bool-cases, inl, inr}
use im_service.Core.Body.{Message, OfflineMessage}
use im_service.Core.Decode.{ok}
use im_service.Core.RoundTrip.Sent.{received}
use im_service.Core.RoundTrip.Fields.{IsOfflineMessage}
use im_service.Ims.StorageFile.{StorageFile, load_message}
use im_service.Ims.StorageFile.Stored.{IsStorable, Stored, loaded, saved, load_message-Stored}
use im_service.Ims.Storage.{UserIndex, Storage, raise_last_id}
use im_service.Ims.Storage.Logged.{Logged}
use im_service.Ims.Storage.Saves.{saved_log, saved-Logged, save_message-Logged}
use im_service.Ims.PeerStorage.Defs.{
  get_peer_index, set_peer_index, is_group_message, peer_entry, entry_message, next_index,
  save_peer_message,
}
use im_service.Ims.PeerStorage.Entries.{entry_message-IsStorable}

pub raise_last_id-Logged :
    (id : ℕ) (f : StorageFile) (log : ℕ → List Message)
    → Logged f log
    → Logged (raise_last_id id f) log
unfolding raise_last_id
raise_last_id-Logged id f log h = elim (Bool-cases (ltb f.last_id id)) [
  | inl e ↦ rw e (record {
    holds = h.holds;
    fresh = h.fresh;
    empty = h.empty;
    storable = h.storable;
    size = h.size;
  })
  | inr e ↦ rw e h
]

pub raise_last_id-block_no : (id : ℕ) (f : StorageFile) → (raise_last_id id f).block_no ≡ f.block_no
unfolding raise_last_id
raise_last_id-block_no id f = ground arith

pub raise_last_id-disk : (id : ℕ) (f : StorageFile) → (raise_last_id id f).disk ≡ f.disk
unfolding raise_last_id
raise_last_id-disk id f = ground arith

module _ (appid uid device_id : ℕ) (m : Message) (s : Storage) where
  abbrev pub group : Bool
  group = is_group_message m

  abbrev pub ui : UserIndex
  ui = get_peer_index appid uid s

  -- The entry that `SavePeerMessage` saves, and the file, the log and the storage behind the call.
  abbrev pub saved_entry : OfflineMessage
  saved_entry = peer_entry appid uid device_id (saved m s.file).1 ui

  abbrev pub saved_file : StorageFile × ℕ
  saved_file = saved (entry_message group saved_entry) (saved m s.file).0

  abbrev pub saved_peer : Storage
  saved_peer =
      set_peer_index appid uid (next_index group (saved m s.file).1 saved_file.1 ui)
        (record s { file = saved_file.0 })

  abbrev pub saved_peer_log : (ℕ → List Message) → ℕ → List Message
  saved_peer_log log =
      saved_log (entry_message group saved_entry) (saved m s.file).0 (saved_log m s.file log)

  pub saved_peer-loads :
      (id : ℕ) (n : Message)
      → Stored saved_file.0.disk id n
      → loaded (load_message id saved_peer.file) ≡ some (received n)
  unfolding set_peer_index
  saved_peer-loads id n h = ap loaded (
      load_message-Stored saved_peer.file id n (
        rw
          (raise_last_id-disk (next_index group (saved m s.file).1 saved_file.1 ui).last_id
            saved_file.0)
          h))

  module _ (log : ℕ → List Message) (h : Logged s.file log) (hm : IsStorable m)
      (ids : IsOfflineMessage saved_entry) where
    pub save_peer_message-saved_peer :
        save_peer_message appid uid device_id m s
        ≡ ok (saved_peer, (saved m s.file).1, ui.last_msgid)
    unfolding save_peer_message
    save_peer_message-saved_peer =
        let hl = saved-Logged m s.file log h hm in
        let he = entry_message-IsStorable group saved_entry ids in
        rw (save_message-Logged m s.file log h hm) (
          rw (save_message-Logged (entry_message group saved_entry) (saved m s.file).0 _ hl he)
            refl)
