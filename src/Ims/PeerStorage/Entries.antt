-- ===== src/Ims/PeerStorage/Entries.antt =====
-- The queue entries that `SavePeerMessage` saves, and what a scan makes of them.
use im_service.Prelude.{
  ℕ, ◌+◌, ◌≡◌, refl, ap, ◌∙◌, Bool, true, false, none, length, arith, if◌then◌else◌,
}
use im_service.Prelude.Bytes.{lengths}
use im_service.Core.Body.{Message, Body, OfflineMessage, cmd}
use im_service.Core.Encode.{write_message, to_data, write_offline4}
use im_service.Core.Command.{msg_offline_v4, message_creators, message_flag_group}
use im_service.Core.Decode.{ok}
use im_service.Core.RoundTrip.Sent.{received}
use im_service.Core.RoundTrip.Fields.{IsOfflineMessage}
use im_service.Core.RoundTrip.Whole.{length-write_message}
use im_service.Ims.StorageFile.Stored.{IsStorable}
use im_service.Ims.Storage.{Storage, lookup, offline_body}
use im_service.Ims.PeerStorage.Defs.{
  no_index, user, get_peer_index, set_peer_index, has_group_flag, entry_message, next_index,
  exec_index, is_peer_entry, exec_peer_message,
}
use mathlib.Core.Option

pub length-to_data : (o : OfflineMessage) → length (to_data 0 (Body.offline4 o)) ≡ 64
unfolding to_data write_offline4
length-to_data o = omega lengths

-- An entry whose ids fit an int64 can be saved.
pub entry_message-IsStorable :
    (group : Bool) (o : OfflineMessage) → IsOfflineMessage o → IsStorable (entry_message group o)
unfolding entry_message message_creators
entry_message-IsStorable group o h =
    let f : ℕ = if group then message_flag_group else 0 in
    let len : length (write_message (Message.message msg_offline_v4 0 0 f (Body.offline4 o) none))
        ≡ 76 =
      length-write_message msg_offline_v4 0 0 f (Body.offline4 o) none
      ∙ ap (λ (n : ℕ). 12 + n) (length-to_data o) in
    ((omega arith, omega arith, (refl, h)), omega (arith, len))

pub cmd-received : (m : Message) → cmd (received m) ≡ cmd m
unfolding received
cmd-received (Message.message c s v f b m) = refl

pub get_peer_index-same :
    (appid uid : ℕ) (s t : Storage)
    → t.peer_index ≡ s.peer_index
    → get_peer_index appid uid t ≡ get_peer_index appid uid s
unfolding get_peer_index
get_peer_index-same appid uid s t h = ap (λ i. Option.get_or (lookup (user appid uid) i) no_index) h

-- A message of another kind leaves the index as it is.
pub exec_peer_message-other :
    (m : Message) (id : ℕ) (t : Storage)
    → is_peer_entry (cmd m) ≡ false
    → exec_peer_message (received m) id t ≡ ok t
unfolding exec_peer_message
exec_peer_message-other m id t h = rw (cmd-received m, h) refl

-- An entry has the effect on the index that saving it has.
pub exec_peer_message-entry :
    (group : Bool) (o : OfflineMessage) (id : ℕ) (t : Storage)
    → exec_peer_message (received (entry_message group o)) id t
      ≡ ok (
          set_peer_index o.appid o.receiver
            (next_index group o.msgid id (get_peer_index o.appid o.receiver t))
            t)
unfolding exec_peer_message entry_message received has_group_flag exec_index next_index
    is_peer_entry offline_body
exec_peer_message-entry true o id t = refl
exec_peer_message-entry false o id t = refl
