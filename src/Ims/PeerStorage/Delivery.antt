-- ===== src/Ims/PeerStorage/Delivery.antt =====
-- From `SavePeerMessage` to the calls that load: how a save extends the queues.
use im_service.Prelude.{
  ℕ, suc, ◌<◌, ◌≡◌, ◌≢◌, refl, sym, ap, subst, false, List, [], ◌∷◌, length, take, arith,
  if◌then◌else◌,
}
use im_service.Prelude.Bytes.{positive64}
use im_service.Core.Body.{Message}
use im_service.Core.Decode.{ok}
use im_service.Core.RoundTrip.Fields.{IsOfflineMessage}
use im_service.Ims.StorageFile.{StorageFile, append_record, roll}
use im_service.Ims.StorageFile.Stored.{
  IsStorable, Ready, Stored, saved, saved-Ready, saved-Stored, saved-keeps, roll-Ready,
  contents-some,
}
use im_service.Ims.Storage.{Storage, UserIndex, same_key}
use im_service.Ims.Storage.Indexes.{lookup-insert, lookup-insert_ne}
use im_service.Ims.Storage.Logged.{Logged, Logged-Ready}
use im_service.Ims.PeerStorage.Defs.{
  user, no_index, get_peer_index, set_peer_index, next_index, peer_entry, entry_message,
  save_peer_message,
}
use im_service.Ims.PeerStorage.Loads.{load_latest_messages}
use im_service.Ims.PeerStorage.Entries.{entry_message-IsStorable}
use im_service.Ims.PeerStorage.Saves.{
  group, ui, saved_entry, saved_file, saved_peer, save_peer_message-saved_peer, raise_last_id-disk,
}
use im_service.Ims.PeerStorage.Queue.{Item, Queue}
use im_service.Ims.PeerStorage.Loading.{latest, load_latest_messages-Queue}
use mathlib.Core.Option

-- No message has the id 0: each file starts with its header.
saved_ne_zero : (m : Message) (s : StorageFile) → Ready s → IsStorable m → (saved m s).1 ≢ 0
unfolding append_record
saved_ne_zero m s r hm e =
    let r' = (roll-Ready m s r hm).0 in
    let here = contents-some (roll m s).disk (roll m s).block_no r'.bytes r'.present in
    absurd (omega (arith, e, ap length here, r'.header))

-- A save of any message leaves a queue as it is.
saved-Queue :
    (m : Message) (s : StorageFile)
    → Ready s
    → IsStorable m
    → (id : ℕ) (xs : List Item) → Queue s.disk id xs
    → Queue (saved m s).0.disk id xs
saved-Queue m s r hm id [] h = h
saved-Queue m s r hm id (x ∷ xs) (nz, he, hx, hq) = (
  nz,
  saved-keeps m s r hm id _ he,
  saved-keeps m s r hm x.entry.msgid x.msg hx,
  saved-Queue m s r hm x.entry.prev_msgid xs hq,
)

get_peer_index-set :
    (appid uid : ℕ) (s : Storage) (i : UserIndex)
    → get_peer_index appid uid (set_peer_index appid uid i s) ≡ i
unfolding get_peer_index set_peer_index
get_peer_index-set appid uid s i = rw (lookup-insert (user appid uid) i s.peer_index) refl

get_peer_index-set_ne :
    (appid uid appid' uid' : ℕ) (s : Storage) (i : UserIndex)
    → same_key (user appid uid) (user appid' uid') ≡ false
    → get_peer_index appid' uid' (set_peer_index appid uid i s) ≡ get_peer_index appid' uid' s
unfolding get_peer_index set_peer_index
get_peer_index-set_ne appid uid appid' uid' s i h =
    ap (λ r. Option.get_or r no_index)
      (lookup-insert_ne (user appid uid) i (user appid' uid') s.peer_index h)

module _ (appid uid device_id : ℕ) (m : Message) (s : Storage) where
  -- The item of the message that is saved.
  abbrev pub new_item : Item
  new_item = record {
    entry = saved_entry appid uid device_id m s;
    flagged = group appid uid device_id m s;
    msg = m;
  }

  abbrev after : Storage
  after = saved_peer appid uid device_id m s

  after-disk : after.file.disk ≡ (saved_file appid uid device_id m s).0.disk
  unfolding set_peer_index
  after-disk = raise_last_id-disk _ (saved_file appid uid device_id m s).0

  module _ (log : ℕ → List Message) (h : Logged s.file log) (hm : IsStorable m)
      (ids : IsOfflineMessage (saved_entry appid uid device_id m s)) where
    -- Both saves leave the queues in the files as they are.
    files-Queue : (id : ℕ) (xs : List Item) → Queue s.file.disk id xs → Queue after.file.disk id xs
    files-Queue id xs q =
        let ready = saved-Ready m s.file (Logged-Ready h) hm in
        let he = entry_message-IsStorable new_item.flagged new_item.entry ids in
        subst (λ d. Queue d id xs) (sym after-disk)
          (saved-Queue (entry_message new_item.flagged new_item.entry) (saved m s.file).0 ready he
            id xs (saved-Queue m s.file (Logged-Ready h) hm id xs q))

    after-Queue :
        (xs : List Item)
        → Queue s.file.disk (get_peer_index appid uid s).last_id xs
        → Queue after.file.disk (get_peer_index appid uid after).last_id (new_item ∷ xs)
    unfolding peer_entry next_index
    after-Queue xs q =
        let entry = entry_message new_item.flagged new_item.entry in
        let f = (saved m s.file).0 in
        let ready = saved-Ready m s.file (Logged-Ready h) hm in
        let he = entry_message-IsStorable new_item.flagged new_item.entry ids in
        let new_index =
          get_peer_index-set appid uid (record s { file = (saved_file appid uid device_id m s).0 })
            (next_index new_item.flagged (saved m s.file).1 (saved entry f).1
              (ui appid uid device_id m s)) in
        rw new_index (
          saved_ne_zero entry f ready he,
          subst (λ d. Stored d (saved entry f).1 entry) (sym after-disk)
              (saved-Stored entry f ready he),
          subst (λ d. Stored d (saved m s.file).1 m) (sym after-disk)
              (saved-keeps entry f ready he (saved m s.file).1 m
                (saved-Stored m s.file (Logged-Ready h) hm)),
          files-Queue _ xs q,
        )

    -- Where the files hold a log, the message can be stored and the ids of its entry fit an int64,
    -- `SavePeerMessage` puts the message in front of the user's queue, and `LoadLatestMessages`,
    -- with fuel for each entry, then returns the newest messages with the commands MSG_IM,
    -- MSG_GROUP_IM, MSG_GROUP_NOTIFICATION, MSG_CUSTOMER and MSG_CUSTOMER_SUPPORT of that longer
    -- queue, `limit` of them at most and one at most where `limit` is 0 or negative.
    pub save_peer_message-load_latest_messages :
        (xs : List Item) (fuel limit : ℕ)
        → Queue s.file.disk (get_peer_index appid uid s).last_id xs
        → suc (length xs) < fuel
        → (save_peer_message appid uid device_id m s
            ≡ ok (after, (saved m s.file).1, (ui appid uid device_id m s).last_msgid))
          × Queue after.file.disk (get_peer_index appid uid after).last_id (new_item ∷ xs)
          × ((t : Storage) × (load_latest_messages fuel appid uid limit after
                ≡ ok (t, take (if positive64 limit then limit else 1) (latest (new_item ∷ xs)))))
    save_peer_message-load_latest_messages xs fuel limit q enough =
        let q' = after-Queue xs q in
        let (t, loads, disk, index) =
          load_latest_messages-Queue fuel appid uid limit after (new_item ∷ xs) q' enough in
        (save_peer_message-saved_peer appid uid device_id m s log h hm ids, q', (t, loads))

    -- Where the files hold a log, the message can be stored and the ids of its entry fit an int64,
    -- `SavePeerMessage` succeeds and leaves the index entry and the queue of every other user as
    -- they were.
    pub save_peer_message-Queue :
        (appid' uid' : ℕ) (xs : List Item)
        → same_key (user appid uid) (user appid' uid') ≡ false
        → Queue s.file.disk (get_peer_index appid' uid' s).last_id xs
        → (save_peer_message appid uid device_id m s
            ≡ ok (after, (saved m s.file).1, (ui appid uid device_id m s).last_msgid))
          × (get_peer_index appid' uid' after ≡ get_peer_index appid' uid' s)
          × Queue after.file.disk (get_peer_index appid' uid' after).last_id xs
    unfolding get_peer_index
    save_peer_message-Queue appid' uid' xs other q =
        let same =
          get_peer_index-set_ne appid uid appid' uid'
            (record s { file = (saved_file appid uid device_id m s).0 }) _ other in
        (
          save_peer_message-saved_peer appid uid device_id m s log h hm ids,
          same,
          rw same (files-Queue _ xs q),
        )
