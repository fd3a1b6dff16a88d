-- ===== src/Ims/PeerStorage/Loading.antt =====
-- What `LoadLatestMessages` and `LoadHistoryMessages` return, as a function of the user's queue.
use im_service.Prelude.{
  ℕ, ◌<◌, ◌≡◌, refl, ap, ◌∙◌, Bool, false, ◌&&◌, ◌||◌, ◌+◌, inl, inr, Bool-cases, List, [], ◌∷◌,
  length, take, arith, leb, ◌==◌, if◌then◌else◌,
}
use im_service.Prelude.Bytes.{le64, positive64}
use im_service.Core.Body.{cmd}
use im_service.Core.Command.{
  msg_group_im, msg_group_notification, msg_im, msg_customer, msg_customer_support, msg_system,
}
use im_service.Core.Decode.{ok}
use im_service.Ims.Storage.{Storage, EMessage}
use im_service.Ims.PeerStorage.Defs.{get_peer_index, get_last_message_id}
use im_service.Ims.PeerStorage.Loads.{
  nothing_loaded, is_latest, is_history, latest_walk, history_walk, load_latest_messages,
  load_history_messages,
}
use im_service.Ims.PeerStorage.Queue.{
  Item, Queue, as_loaded, kept, newest, newest-all, newest-take, walk-Queue,
}

unfoldable pub one_of : ℕ → List ℕ → Bool
one_of c [] = false
one_of c (d ∷ ds) = c == d || one_of c ds

-- The commands of the messages that `LoadLatestMessages` is to return.
abbrev pub latest_commands : List ℕ
latest_commands =
    msg_im ∷ msg_group_im ∷ msg_group_notification ∷ msg_customer ∷ msg_customer_support ∷ []

-- `LoadHistoryMessages` is to return these and the system's.
abbrev pub history_commands : List ℕ
history_commands = msg_system ∷ latest_commands

is_latest-one_of : (c : ℕ) → is_latest c ≡ one_of c latest_commands
unfolding is_latest one_of
is_latest-one_of c = ground arith

is_history-one_of : (c : ℕ) → is_history c ≡ one_of c history_commands
unfolding is_history one_of
is_history-one_of c = ground arith

-- The messages of the queue that `LoadLatestMessages` may return.
unfoldable pub latest : List Item → List EMessage
latest [] = []
latest (x ∷ xs) = if one_of (cmd x.msg) latest_commands then as_loaded x ∷ latest xs else latest xs

-- The messages of the queue behind `sync_msgid` that `LoadHistoryMessages` may return.
unfoldable pub history : ℕ → List Item → List EMessage
history sync_msgid [] = []
history sync_msgid (x ∷ xs) =
    if le64 x.entry.msgid sync_msgid
    then []
    else if one_of (cmd x.msg) history_commands
    then as_loaded x ∷ history sync_msgid xs
    else history sync_msgid xs

kept-latest_walk : (limit : ℕ) (xs : List Item) → kept (latest_walk limit) xs ≡ latest xs
unfolding kept latest latest_walk
kept-latest_walk limit [] = refl
kept-latest_walk limit (x ∷ xs) = rw (kept-latest_walk limit xs, is_latest-one_of (cmd x.msg)) refl

kept-history_walk :
    (sync_msgid group_limit limit : ℕ) (xs : List Item)
    → kept (history_walk sync_msgid group_limit limit) xs ≡ history sync_msgid xs
unfolding kept history history_walk
kept-history_walk sync_msgid group_limit limit [] = refl
kept-history_walk sync_msgid group_limit limit (x ∷ xs) =
    rw (kept-history_walk sync_msgid group_limit limit xs, is_history-one_of (cmd x.msg)) refl

-- At least one message is taken where the limit is 0 or negative.
newest-latest_walk :
    (limit : ℕ) (xs : List Item)
    → newest (latest_walk limit) 0 xs ≡ take (if positive64 limit then limit else 1) (latest xs)
unfolding latest_walk
newest-latest_walk limit xs =
    let most : ℕ = if positive64 limit then limit else 1 in
    newest-take (latest_walk limit) most 0 xs (λ k. ground arith) (ground arith)
    ∙ ap (λ (n : ℕ). take n (kept (latest_walk limit) xs)) (omega arith)
    ∙ ap (take most) (kept-latest_walk limit xs)

history_walk-full :
    (sync_msgid limit k : ℕ)
    → (history_walk sync_msgid 0 limit).full k ≡ (positive64 limit && leb limit k)
unfolding history_walk
history_walk-full sync_msgid limit k = refl

-- A limit of 0 or a negative one is none.
newest-history_walk :
    (sync_msgid limit : ℕ) (xs : List Item)
    → newest (history_walk sync_msgid 0 limit) 0 xs
      ≡ (if positive64 limit then take limit (history sync_msgid xs) else history sync_msgid xs)
newest-history_walk sync_msgid limit xs =
    let w = history_walk sync_msgid 0 limit in
    let whole = kept-history_walk sync_msgid 0 limit xs in
    elim (Bool-cases (positive64 limit)) [
      | inl e ↦
          let full : (k : ℕ) → w.full (k + 1) ≡ leb limit (k + 1) =
            λ k. history_walk-full sync_msgid limit (k + 1) ∙ rw e refl in
          rw e (
            newest-take w limit 0 xs full (ground arith)
            ∙ ap (λ (t : ℕ). take t (kept w xs)) (omega arith)
            ∙ ap (take limit) whole)
      | inr e ↦
          let open_end : (k : ℕ) → w.full (k + 1) ≡ false =
            λ k. history_walk-full sync_msgid limit (k + 1) ∙ rw e refl in
          rw e (newest-all w 0 xs open_end ∙ whole)
    ]

module _ (fuel appid uid limit : ℕ) (s : Storage) (xs : List Item)
    (h : Queue s.file.disk (get_peer_index appid uid s).last_id xs)
    (enough : length xs < fuel) where
  -- With fuel for each entry of the user's queue, `LoadLatestMessages` returns the newest messages
  -- of the queue with the commands MSG_IM, MSG_GROUP_IM, MSG_GROUP_NOTIFICATION, MSG_CUSTOMER and
  -- MSG_CUSTOMER_SUPPORT, `limit` of them at most and one at most where `limit` is 0 or negative,
  -- the newest first; it changes neither the files nor the index.
  pub load_latest_messages-Queue :
      (s' : Storage) × (load_latest_messages fuel appid uid limit s
        ≡ ok (s', take (if positive64 limit then limit else 1) (latest xs)))
      × (s'.file.disk ≡ s.file.disk)
      × (s'.peer_index ≡ s.peer_index)
  unfolding load_latest_messages get_last_message_id latest_walk
  load_latest_messages-Queue =
      let (f, l, runs, disk, found) =
        walk-Queue (latest_walk limit) (λ id. refl) (λ n o. refl) fuel
          (get_peer_index appid uid s).last_id nothing_loaded s.file xs h enough in
      (
        record s { file = f },
        rw runs (ap (λ ms. ok (record s { file = f }, ms)) (found ∙ newest-latest_walk limit xs)),
        disk,
        refl,
      )

  -- With fuel for each entry of the user's queue and no limit of group messages,
  -- `LoadHistoryMessages` returns the messages of the queue with the commands MSG_IM, MSG_GROUP_IM,
  -- MSG_GROUP_NOTIFICATION, MSG_CUSTOMER, MSG_CUSTOMER_SUPPORT and MSG_SYSTEM, the newest first,
  -- down to the first whose id is, as an int64, at most `sync_msgid`, and `limit` of them at most
  -- if that is positive; it changes neither the files nor the index.
  pub load_history_messages-Queue :
      (sync_msgid : ℕ)
      → (s' : Storage) × (last_msgid : ℕ) × (load_history_messages fuel appid uid sync_msgid 0 limit
            s
          ≡ ok (
            s',
            if positive64 limit then take limit (history sync_msgid xs) else history sync_msgid xs,
            last_msgid,
            false,
          ))
        × (s'.file.disk ≡ s.file.disk)
        × (s'.peer_index ≡ s.peer_index)
  unfolding load_history_messages get_last_message_id history_walk
  load_history_messages-Queue sync_msgid =
      let (f, l, runs, disk, found) =
        walk-Queue (history_walk sync_msgid 0 limit) (λ id. refl) (λ n o. refl) fuel
          (get_peer_index appid uid s).last_id nothing_loaded s.file xs h enough in
      (
        record s { file = f },
        l.last_msgid,
        rw runs (
            ap (λ ms. ok (record s { file = f }, ms, l.last_msgid, false))
              (found ∙ newest-history_walk sync_msgid limit xs)),
        disk,
        refl,
      )
