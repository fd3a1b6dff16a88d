-- ===== src/Ims/PeerStorage/Loads.antt =====
-- The calls that walk a user's queue backwards. The fuel is the number of entries that are visited at
-- most: each visit of a loop takes one.
use im_service.Prelude.{
  ℕ, zero, suc, Bool, true, false, ◌&&◌, ◌||◌, List, [], ◌∷◌, ◌++◌, Option, none, some, length, leb,
  ◌==◌, if◌then◌else◌,
}
use im_service.Prelude.Bytes.{le64, positive64, at_limit}
use im_service.Core.Body.{Message, Nested, OfflineMessage, cmd, body}
use im_service.Core.Command.{
  msg_group_im, msg_group_notification, msg_im, msg_customer, msg_customer_support, msg_system,
}
use im_service.Core.Decode.{Outcome, ok, stuck, ◌>>=◌}
use im_service.Ims.StorageFile.{StorageFile, load_message}
use im_service.Ims.Storage.{Storage, EMessage, offline_body}
use im_service.Ims.PeerStorage.Defs.{get_last_message_id}
use mathlib.Core.Option

-- `LoadMessage` of a queue entry and the type assertion; each loop ends if either fails.
unfoldable pub load_entry : ℕ → StorageFile → Outcome (StorageFile × Option OfflineMessage)
load_entry id f = do
  (f', m) ← load_message id f
  ok (f', Option.bind m (λ x. offline_body (body x)))

-- What tells the three loops apart: the ids at which they stop, the entries at which they stop, the
-- commands that they return, the number of messages at which they stop, and the entry that follows,
-- given the number of messages.
pub record Walk : Type 0 where
  pub stops : ℕ → Bool
  pub reached : OfflineMessage → Bool
  pub wanted : ℕ → Bool
  pub full : ℕ → Bool
  pub following : ℕ → OfflineMessage → ℕ

-- The variables of a loop: `last_msgid`, `last_offline_msgid` and `messages`.
pub record Loaded : Type 0 where
  pub last_msgid : ℕ
  pub last_offline_msgid : ℕ
  pub messages : List EMessage

abbrev pub nothing_loaded : Loaded
nothing_loaded = record { last_msgid = 0; last_offline_msgid = 0; messages = [] }

-- `if last_msgid == 0 { last_msgid = off.Msgid; last_offline_msgid = last_id }`.
unfoldable pub note_first : ℕ → OfflineMessage → Loaded → Loaded
note_first last_id off l =
    if l.last_msgid == 0
    then record l { last_msgid = off.msgid; last_offline_msgid = last_id }
    else l

unfoldable pub collect : OfflineMessage → Message → Loaded → Loaded
collect off m l = record l {
  messages =
      l.messages
      ++ record { msg_id = off.msgid; device_id = off.device_id; msg = Nested.ref m } ∷ [];
}

unfoldable pub walk : Walk → ℕ → ℕ → Loaded → StorageFile → Outcome (StorageFile × Loaded)
walk w zero last_id l f = stuck
walk w (suc fuel) last_id l f = elim (w.stops last_id) [
  | true ↦ ok (f, l)
  | false ↦ do
    (f', entry) ← load_entry last_id f
    elim entry [
      | none ↦ ok (f', l)
      | some off ↦
          let l' = note_first last_id off l in
          elim (w.reached off) [
            | true ↦ ok (f', l')
            | false ↦ do
              (f'', message) ← load_message off.msgid f'
              elim message [
                | none ↦ ok (f'', l')
                | some m ↦
                    let taken = collect off m l' in
                    elim (w.wanted (cmd m)) [
                      | false ↦ walk w fuel (w.following (length l'.messages) off) l' f''
                      | true ↦ elim (w.full (length taken.messages)) [
                        | true ↦ ok (f'', taken)
                        | false ↦ walk w fuel (w.following (length taken.messages) off) taken f''
                      ]
                    ]
              ]
          ]
    ]
]

-- The commands that `LoadHistoryMessages` returns.
unfoldable pub is_history : ℕ → Bool
is_history c =
    c == msg_group_im
    || c == msg_group_notification
    || c == msg_im
    || c == msg_customer
    || c == msg_customer_support
    || c == msg_system

-- `LoadLatestMessages` returns the same but `MSG_SYSTEM`.
unfoldable pub is_latest : ℕ → Bool
is_latest c =
    c == msg_group_im
    || c == msg_group_notification
    || c == msg_im
    || c == msg_customer
    || c == msg_customer_support

-- The loop of `LoadHistoryMessages`: behind `group_limit` messages it follows the queue of the
-- messages between two users only.
unfoldable pub history_walk : ℕ → ℕ → ℕ → Walk
history_walk sync_msgid group_limit limit = record {
  stops = λ id. id == 0;
  reached = λ off. le64 off.msgid sync_msgid;
  wanted = is_history;
  full = λ n. positive64 limit && leb limit n;
  following = λ n off.
      if positive64 group_limit && leb group_limit n then off.prev_peer_msgid else off.prev_msgid;
}

-- `LoadHistoryMessages`: the messages, the newest first, and the id of the newest.
unfoldable pub load_history_messages :
    ℕ → ℕ → ℕ → ℕ → ℕ → ℕ → Storage → Outcome (Storage × List EMessage × ℕ × Bool)
load_history_messages fuel appid receiver sync_msgid group_limit limit s = do
  let (last_id, last_peer_id) = get_last_message_id appid receiver s
  (f, l) ← walk (history_walk sync_msgid group_limit limit) fuel last_id nothing_loaded s.file
  ok (record s { file = f }, l.messages, l.last_msgid, false)

unfoldable pub latest_walk : ℕ → Walk
latest_walk limit = record {
  stops = λ id. id == 0;
  reached = λ off. false;
  wanted = is_latest;
  full = λ n. at_limit limit n;
  following = λ n off. off.prev_msgid;
}

-- `LoadLatestMessages`.
unfoldable pub load_latest_messages : ℕ → ℕ → ℕ → ℕ → Storage → Outcome (Storage × List EMessage)
load_latest_messages fuel appid receiver limit s = do
  let (last_id, last_peer_id) = get_last_message_id appid receiver s
  (f, l) ← walk (latest_walk limit) fuel last_id nothing_loaded s.file
  ok (record s { file = f }, l.messages)
