-- ===== src/Im/PeerClient/Decisions.antt =====
-- What becomes of a message to a user, as one decision: the order of the tests is the table of the
-- statuses.
use Prim.Native.Nat.{bit_and}
use im_service.Prelude.{
  ℕ, ◌%◌, ◌^◌, ◌≡◌, refl, sym, inl, inr, Bool, not, ◌&&◌, ◌||◌, List, [], ◌∷◌, ◌++◌, Option, none,
  some, ◌==◌, if◌then◌else◌, append-nil, Option-cases,
}
use im_service.Core.Body.{Message, Body, ImMessage, Metadata}
use im_service.Core.Command.{default_version, msg_im, msg_ack, message_flag_text}
use im_service.Core.Encode.{to_data}
use im_service.Im.Relationship.{is_my_friend, is_your_friend, is_in_your_blacklist}
use im_service.Im.PeerClient.Defs.{PeerClient}
use im_service.Im.PeerClient.Messages.{
  Action, World, Environment, act, deliveries, save, save_and_send,
}

pub data Verdict : Type 0 where
  ignored : Verdict
  refused : ℕ → Verdict
  unsaved : Verdict
  delivered : Metadata → Metadata → Verdict

-- The status with which a message between users so related is refused, by these settings.
unfoldable pub refusal : Bool → Bool → ℕ → Option ℕ
refusal friend_permission enable_blacklist rs =
    if friend_permission && not (is_my_friend rs)
    then some 1
    else if friend_permission && not (is_your_friend rs)
    then some 2
    else if enable_blacklist && is_in_your_blacklist rs
    then some 3
    else none

module _ {R : Type 0} (env : Environment R) (c : PeerClient) (version : ℕ) where
  -- What is said of the message with its content filtered and its time set.
  abbrev pub stamped : ℕ → ImMessage → ImMessage
  stamped flag im = record im {
    timestamp = env.now % 2 ^ 32;
    content =
        if bit_and flag message_flag_text == 0
        then im.content
        else env.filter_dirty_word im.content;
  }

  -- The two calls of `SaveMessage`: the receiver's copy first.
  unfoldable pub saved_copies : ImMessage → R → R × Verdict
  saved_copies im st =
      let raw = to_data default_version (Body.im_message im) in
      let (st1, r1) = env.save_peer_message c.appid im.receiver c.device_id msg_im raw st in
      let (st2, r2) = env.save_peer_message c.appid im.sender c.device_id msg_im raw st1 in
      elim r1 [
        | none ↦ (st1, unsaved)
        | some a ↦ elim r2 [
          | none ↦ (st2, unsaved)
          | some b ↦ (
            st2,
            delivered (record { sync_key = a.0; prev_sync_key = a.1 })
                (record { sync_key = b.0; prev_sync_key = b.1 }),
          )
        ]
      ]

  unfoldable pub by_refusal : ℕ → ImMessage → R → Option ℕ → R × Verdict
  unfolding saved_copies
  by_refusal flag im st (some s) = (st, refused s)
  by_refusal flag im st none = saved_copies (stamped flag im) st

  -- The state of storage, and what becomes of the message, by the relationship `rs` of its users.
  unfoldable pub verdict : ℕ → ImMessage → ℕ → R → R × Verdict
  unfolding by_refusal refusal
  verdict flag im rs st =
      if c.uid == 0 || not (im.sender == c.uid)
      then (st, ignored)
      else by_refusal flag im st (refusal env.friend_permission env.enable_blacklist rs)

  -- What the client and others see of it.
  unfoldable pub actions_of : ℕ → ℕ → ImMessage → Verdict → List Action
  actions_of seq flag im ignored = []
  actions_of seq flag im (refused s) =
      Action.enqueue (
        Message.message msg_ack 0 version 0
          (Body.message_ack (record { seq = seq % 2 ^ 32; status = s })) none)
      ∷ []
  actions_of seq flag im unsaved = []
  actions_of seq flag im (delivered a b) = deliveries env c version seq flag (stamped flag im) a b

  pub record Does (w w' : World R) (seq flag : ℕ) (im : ImMessage) (v : R × Verdict) : Type 0 where
    pub storages : w'.storages ≡ v.0
    pub actions : w'.actions ≡ w.actions ++ actions_of seq flag im v.1

  pub save_and_send-Does :
      (seq flag : ℕ) (im : ImMessage) (w : World R)
      → Does w
          (save_and_send env c version seq flag im w)
          seq
          flag
          im
          (saved_copies (stamped flag im) w.storages)
  unfolding save_and_send saved_copies actions_of save act
  save_and_send-Does seq flag im w =
      let i = stamped flag im in
      let raw = to_data default_version (Body.im_message i) in
      let first = env.save_peer_message c.appid im.receiver c.device_id msg_im raw w.storages in
      let second = env.save_peer_message c.appid im.sender c.device_id msg_im raw first.0 in
      elim (Option-cases first.1) [
        | inl e ↦
            rw (e, save_and_send, saved_copies)
              (record { storages = refl; actions = sym (append-nil w.actions) })
        | inr (a, e) ↦ elim (Option-cases second.1) [
          | inl f ↦
              rw (e, f, save_and_send, saved_copies)
                (record { storages = refl; actions = sym (append-nil w.actions) })
          | inr (b, f) ↦
              rw (e, f, save_and_send, saved_copies) (record { storages = refl; actions = refl })
        ]
      ]
