-- ===== src/Im/PeerClient/Messages.antt =====
-- `HandleIMMessage`. The storage rpc, the two queries of relationships, the clock and the filter of words
-- (which calls third-party code) are parameters. What is not logged is in `actions`.
use Prim.Native.Nat.{bit_and, bit_or}
use im_service.Prelude.{
  ℕ, ◌%◌, ◌^◌, Bool, not, ◌&&◌, ◌||◌, List, [], ◌∷◌, ◌++◌, Option, none, some, ◌==◌, if◌then◌else◌,
}
use im_service.Prelude.Bytes.{Bytes}
use im_service.Core.Body.{Message, Body, ImMessage, Metadata}
use im_service.Core.Command.{
  default_version, msg_im, msg_ack, msg_sync_notify, message_flag_text, message_flag_push,
}
use im_service.Core.Encode.{to_data}
use im_service.Core.Decode.{Outcome, ok, ◌>>=◌}
use im_service.Im.Relationship.{is_my_friend, is_your_friend, is_in_your_blacklist}
use im_service.Im.RelationshipPool.{RelationshipPool, Rows, pool_relationship, none_relationship}
use im_service.Im.PeerClient.Defs.{PeerClient, as_im}

abbrev pub ack_not_my_friend : ℕ
ack_not_my_friend = 1

abbrev pub ack_not_your_friend : ℕ
ack_not_your_friend = 2

abbrev pub ack_in_your_blacklist : ℕ
ack_in_your_blacklist = 3

-- A call of `PushMessage`, of `SendMessage`, or of `EnqueueMessage` on the client itself.
pub data Action : Type 0 where
  push : ℕ → Message → Action
  send : ℕ → Message → Action
  enqueue : Message → Action

-- `storages` is the state of the storage servers.
pub record World (R : Type 0) : Type 0 where
  pub storages : R
  pub pool : RelationshipPool
  pub actions : List Action

-- `config`, the tables, the clock, the filter, and the rpc `SavePeerMessage`: two ids, or an error.
pub record Environment (R : Type 0) : Type 0 where
  pub friend_permission : Bool
  pub enable_blacklist : Bool
  pub friend : Option Rows
  pub blacklist : Option Rows
  pub now : ℕ
  pub filter_dirty_word : Bytes → Bytes
  pub save_peer_message : ℕ → ℕ → ℕ → ℕ → Bytes → R → R × Option (ℕ × ℕ)

module _ {R : Type 0} (env : Environment R) (c : PeerClient) (version : ℕ) where
  unfoldable pub act : List Action → World R → World R
  act l w = record w { actions = w.actions ++ l }

  -- `relationship_pool.GetRelationship` of the client and a user.
  unfoldable pub ask : ℕ → World R → World R × ℕ
  ask receiver w =
      let (pool, rs) =
        pool_relationship env.friend env.blacklist env.now c.appid c.uid receiver w.pool in
      (record w { pool = pool }, rs)

  -- The acknowledgement of a message that is refused.
  unfoldable pub refuse : ℕ → ℕ → World R → World R
  unfolding act
  refuse seq status = act (
      Action.enqueue (
        Message.message msg_ack 0 version 0
          (Body.message_ack (record { seq = seq % 2 ^ 32; status = status })) none)
      ∷ [])

  -- What is done once both copies are saved, with the ids of the receiver's and of the sender's.
  unfoldable pub deliveries : ℕ → ℕ → ImMessage → Metadata → Metadata → List Action
  deliveries seq flag im receiver_ids sender_ids =
      let pushed = bit_or flag message_flag_push in
      let body = Body.im_message im in
      let notify =
        Message.message msg_sync_notify 0 0 0 (Body.sync_key receiver_ids.sync_key) none in
      Action.push im.receiver (Message.message msg_im 0 default_version 0 body none)
      ∷ Action.send im.receiver
          (Message.message msg_im 0 default_version pushed body (some receiver_ids))
      ∷ Action.send im.receiver notify
      ∷ Action.send c.uid (Message.message msg_im 0 default_version pushed body (some sender_ids))
      ∷ Action.send c.uid notify
      ∷ Action.enqueue (
          Message.message msg_ack 0 0 0
            (Body.message_ack (record { seq = seq % 2 ^ 32; status = 0 })) (some sender_ids))
      ∷ []

  -- `SaveMessage`.
  unfoldable pub save : ℕ → Message → World R → World R × Option Metadata
  save uid (Message.message cmd seq v flag body meta) w =
      let (st, r) =
        env.save_peer_message c.appid uid c.device_id (cmd % 2 ^ 32) (to_data v body) w.storages in
      (
        record w { storages = st },
        elim r [
          | none ↦ none
          | some ids ↦ some (record { sync_key = ids.0; prev_sync_key = ids.1 })
        ],
      )

  -- The rest of the handler, behind the tests.
  unfoldable pub save_and_send : ℕ → ℕ → ImMessage → World R → World R
  unfolding save deliveries act
  save_and_send seq flag im w =
      let filtered =
        if bit_and flag message_flag_text == 0
        then im.content
        else env.filter_dirty_word im.content in
      let im' = record im { timestamp = env.now % 2 ^ 32; content = filtered } in
      let m = Message.message msg_im 0 default_version 0 (Body.im_message im') none in
      let (w1, r1) = save im'.receiver m w in
      elim r1 [
        | none ↦ w1
        | some receiver_ids ↦
            let (w2, r2) = save im'.sender m w1 in
            elim r2 [
              | none ↦ w2
              | some sender_ids ↦ act (deliveries seq flag im' receiver_ids sender_ids) w2
            ]
      ]

  -- The test of `config.friend_permission`.
  unfoldable pub friend_status : ℕ → Option ℕ
  friend_status rs =
      if not (is_my_friend rs)
      then some ack_not_my_friend
      else if not (is_your_friend rs)
      then some ack_not_your_friend
      else none

  -- The tests of relationships, for these two settings of `config`, and what follows them.
  unfoldable pub check_and_send : Bool → Bool → ℕ → ℕ → ImMessage → World R → World R
  check_and_send friend_permission enable_blacklist seq flag im w =
      let (w1, rs) : World R × ℕ =
        if friend_permission || enable_blacklist
        then ask im.receiver w
        else (w, none_relationship) in
      let (w2, status) : World R × Option ℕ =
        if friend_permission
        then (let (w', rs') = ask im.receiver w1 in (w', friend_status rs'))
        else (w1, none) in
      elim status [
        | some s ↦ refuse seq s w2
        | none ↦
            if enable_blacklist && is_in_your_blacklist rs
            then refuse seq ack_in_your_blacklist w2
            else save_and_send seq flag im w2
      ]

  unfoldable pub handle_im_message : Message → World R → Outcome (World R)
  handle_im_message (Message.message cmd seq v flag body meta) w = do
    im ← as_im body
    ok (
        if c.uid == 0 || not (im.sender == c.uid)
        then w
        else check_and_send env.friend_permission env.enable_blacklist seq flag im w)
