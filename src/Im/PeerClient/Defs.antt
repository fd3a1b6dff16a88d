-- ===== src/Im/PeerClient/Defs.antt =====
-- `HandleSync` and `isSender`. The queries, the storage rpc and `config.kefu_appid` are parameters. A
-- body that cannot be decoded, which the source shows in part, is `refused`.
use im_service.Prelude.{
  ℕ, ◌+◌, ◌%◌, ◌^◌, Bool, false, ◌&&◌, ◌||◌, List, [], ◌∷◌, ◌++◌, Option, none, some, map, ◌==◌,
  if◌then◌else◌,
}
use im_service.Prelude.Bytes.{lt64, Bytes}
use im_service.Core.Body.{Message, Body, ImMessage, CustomerMessage}
use im_service.Core.Command.{
  default_version, msg_im, msg_group_im, msg_customer, msg_customer_support, msg_sync_begin,
  msg_sync_end, msg_sync_notify, message_flag_self,
}
use im_service.Core.Decode.{Outcome, ok, panic, ◌>>=◌, from_data, receive_message}

-- The fields of the connection that the handlers read. `device_id` is `device_ID`.
pub record PeerClient : Type 0 where
  pub appid : ℕ
  pub uid : ℕ
  pub device_id : ℕ
  pub sync_count : ℕ

pub record HistoryMessage : Type 0 where
  pub msgid : ℕ
  pub device_id : ℕ
  pub cmd : ℕ
  pub raw : Bytes

-- `messages` has the newest message first.
pub record PeerHistoryMessage : Type 0 where
  pub messages : List HistoryMessage
  pub last_msgid : ℕ
  pub has_more : Bool

-- The type assertions.
abbrev pub as_im : Body → Outcome ImMessage
as_im (Body.im_message m) = ok m
as_im _ = panic

abbrev pub as_customer : Body → Outcome CustomerMessage
as_customer (Body.customer_message m) = ok m
as_customer _ = panic

-- The three tests of `isSender`, of a message of a command with a body.
unfoldable pub is_im_sender : PeerClient → ℕ → Body → ℕ → Outcome Bool
is_im_sender c cmd body device_id =
    if cmd == msg_im || cmd == msg_group_im
    then (do m ← as_im body; ok (m.sender == c.uid && device_id == c.device_id))
    else ok false

unfoldable pub is_customer_sender : PeerClient → ℕ → Body → ℕ → Outcome Bool
is_customer_sender c cmd body device_id =
    if cmd == msg_customer
    then (do
      m ← as_customer body
      ok ((m.customer_appid == c.appid && m.customer_id == c.uid) && device_id == c.device_id))
    else ok false

unfoldable pub is_support_sender : ℕ → PeerClient → ℕ → Body → ℕ → Outcome Bool
is_support_sender kefu_appid c cmd body device_id =
    if cmd == msg_customer_support
    then (do
      m ← as_customer body
      ok ((kefu_appid == c.appid && m.seller_id == c.uid) && device_id == c.device_id))
    else ok false

unfoldable pub is_sender : ℕ → PeerClient → ℕ → Body → ℕ → Outcome Bool
unfolding is_im_sender is_customer_sender is_support_sender
is_sender kefu_appid c cmd body device_id = do
  a ← is_im_sender c cmd body device_id
  b ← is_customer_sender c cmd body device_id
  d ← is_support_sender kefu_appid c cmd body device_id
  ok (a || (b || d))

-- A message of the batch: one of its own, or one of the command whose body is the pointer `sk`.
pub data Draft : Type 0 where
  fixed : Message → Draft
  with_key : ℕ → Draft

-- The message as it is sent, when `sk` holds a key.
unfoldable pub resolve : ℕ → Draft → Message
resolve key (fixed m) = m
resolve key (with_key cmd) = Message.message cmd 0 0 0 (Body.sync_key key) none

-- A message of the history, as it is sent.
unfoldable pub history_message : ℕ → PeerClient → HistoryMessage → Outcome Message
unfolding is_sender
history_message kefu_appid c h = do
  body ← from_data receive_message h.cmd default_version h.raw
  self ← is_sender kefu_appid c h.cmd body h.device_id
  ok (Message.message h.cmd 0 default_version (if self then message_flag_self else 0) body none)

-- The loop from the last message to the first: what `sk` holds, and what was appended.
unfoldable pub sync_loop : ℕ → PeerClient → List HistoryMessage → ℕ → Outcome (ℕ × List Draft)
unfolding history_message
sync_loop kefu_appid c [] key = ok (key, [])
sync_loop kefu_appid c (h ∷ hs) key = do
  (key', drafts) ← sync_loop kefu_appid c hs key
  m ← history_message kefu_appid c h
  ok (h.msgid, drafts ++ fixed m ∷ [])

-- What `EnqueueMessages` and then `EnqueueMessage` are given.
pub record Reply : Type 0 where
  pub batch : List Message
  pub notify : Option Message

unfoldable pub sync_reply :
    ℕ → PeerClient → ℕ → PeerHistoryMessage → Outcome (PeerClient × Option Reply)
sync_reply kefu_appid c last_id ph = do
  (key, drafts) ← sync_loop kefu_appid c ph.messages last_id
  let sk = if lt64 ph.last_msgid last_id && lt64 0 ph.last_msgid then ph.last_msgid else key
  let begin : Draft = with_key msg_sync_begin
  let end : Draft = with_key msg_sync_end
  ok (
    record c { sync_count = c.sync_count + 1 },
    some (record {
      batch = map (resolve sk) (begin ∷ (drafts ++ end ∷ []));
      notify =
          if ph.has_more
          then some (
              Message.message msg_sync_notify 0 0 0 (Body.sync_key ((ph.last_msgid + 1) % 2 ^ 64))
                none)
          else none;
    }),
  )

-- `HandleSync`, with the stored key of a user and the answer of the storage server, or nothing if the
-- call fails.
unfoldable pub handle_sync_message :
    ℕ
    → (ℕ → ℕ → ℕ)
    → (ℕ → ℕ → ℕ → ℕ → Option PeerHistoryMessage)
    → ℕ
    → PeerClient
    → Outcome (PeerClient × Option Reply)
handle_sync_message kefu_appid get_sync_key sync_message sync_key c =
    let last_id = if sync_key == 0 then get_sync_key c.appid c.uid else sync_key in
    if c.uid == 0 then ok (c, none) else elim (sync_message c.appid c.uid c.device_id last_id) [
      | none ↦ ok (c, none)
      | some ph ↦ sync_reply kefu_appid c last_id ph
    ]
