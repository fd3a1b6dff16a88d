-- ===== src/Im/PeerClient/Syncs.antt =====
-- What `HandleSync` sends.
use im_service.Prelude.{
  ℕ, ◌+◌, ◌%◌, ◌^◌, ◌≡◌, refl, sym, ap, subst, ◌∙◌, false, ◌&&◌, List, [], ◌∷◌, ◌++◌, Option, none,
  some, map, All, if◌then◌else◌, ◌==◌,
}
use mathlib.Core.List.{map-append}
use im_service.Prelude.Bytes.{lt64}
use im_service.Core.Body.{Message, Body}
use im_service.Core.Command.{
  default_version, msg_sync_begin, msg_sync_end, msg_sync_notify, message_flag_self,
}
use im_service.Core.Decode.{ok}
use im_service.Im.PeerClient.Defs.{
  PeerClient, HistoryMessage, PeerHistoryMessage, fixed, with_key, resolve, history_message,
  sync_loop, Reply, sync_reply, handle_sync_message,
}
use im_service.Im.PeerClient.Assertions.{Decoded, mine, is_sender-IsMine}

-- The message that the client is to get.
abbrev pub shown : ℕ → PeerClient → HistoryMessage → Body → Message
shown kefu_appid c h body =
    Message.message h.cmd 0 default_version
      (if mine kefu_appid c h.cmd h.device_id body then message_flag_self else 0) body none

-- Oldest first.
unfoldable pub shown_all :
    ℕ → PeerClient → (hs : List HistoryMessage) → All Decoded hs → List Message
shown_all kefu_appid c [] ds = []
shown_all kefu_appid c (h ∷ hs) (d, ds) =
    shown_all kefu_appid c hs ds ++ shown kefu_appid c h d.body ∷ []

-- The id of the newest message, and `k` if there is none.
abbrev pub newest : List HistoryMessage → ℕ → ℕ
newest [] k = k
newest (h ∷ hs) k = h.msgid

module _ (kefu_appid : ℕ) (c : PeerClient) where
  history_message-shown :
      (h : HistoryMessage) (d : Decoded h)
      → history_message kefu_appid c h ≡ ok (shown kefu_appid c h d.body)
  unfolding history_message
  history_message-shown h d =
      rw (d.decodes, is_sender-IsMine kefu_appid c h.device_id h.cmd h.raw d.body d.decodes)

  sync_loop-shown :
      (hs : List HistoryMessage) (ds : All Decoded hs) (key : ℕ)
      → sync_loop kefu_appid c hs key ≡ ok (newest hs key, map fixed (shown_all kefu_appid c hs ds))
  unfolding sync_loop shown_all
  sync_loop-shown [] ds key = refl
  sync_loop-shown (h ∷ hs) (d, ds) key =
      rw (sync_loop-shown hs ds key, history_message-shown h d)
        (ap (λ l. ok (h.msgid, l))
          (sym
            (map-append fixed (shown_all kefu_appid c hs ds) (shown kefu_appid c h d.body ∷ []))))

  resolve-fixed : (key : ℕ) (l : List Message) → map (resolve key) (map fixed l) ≡ l
  unfolding resolve
  resolve-fixed key [] = refl
  resolve-fixed key (m ∷ l) = ap (◌∷◌ m) (resolve-fixed key l)

  -- The key that `sk` ends with: the newest message's, unless the server is behind the client.
  abbrev pub final_key : ℕ → PeerHistoryMessage → ℕ
  final_key last_id ph =
      if lt64 ph.last_msgid last_id && lt64 0 ph.last_msgid
      then ph.last_msgid
      else newest ph.messages last_id

  abbrev pub full_reply : ℕ → (ph : PeerHistoryMessage) → All Decoded ph.messages → Reply
  full_reply last_id ph ds =
      let key = Body.sync_key (final_key last_id ph) in
      record {
        batch =
            Message.message msg_sync_begin 0 0 0 key none
            ∷ (shown_all kefu_appid c ph.messages ds
                ++ Message.message msg_sync_end 0 0 0 key none ∷ []);
        notify =
            if ph.has_more
            then some (
                Message.message msg_sync_notify 0 0 0 (Body.sync_key ((ph.last_msgid + 1) % 2 ^ 64))
                  none)
            else none;
      }

  batch-resolved :
      (key : ℕ) (l : List Message)
      → map (resolve key) (with_key msg_sync_begin ∷ (map fixed l ++ with_key msg_sync_end ∷ []))
        ≡ Message.message msg_sync_begin 0 0 0 (Body.sync_key key) none
          ∷ (l ++ Message.message msg_sync_end 0 0 0 (Body.sync_key key) none ∷ [])
  unfolding resolve
  batch-resolved key l = ap (◌∷◌ (Message.message msg_sync_begin 0 0 0 (Body.sync_key key) none)) (
      map-append (resolve key) (map fixed l) (with_key msg_sync_end ∷ [])
      ∙ ap (λ x. x ++ resolve key (with_key msg_sync_end) ∷ []) (resolve-fixed key l))

  sync_reply-shown :
      (last_id : ℕ) (ph : PeerHistoryMessage) (ds : All Decoded ph.messages)
      → sync_reply kefu_appid c last_id ph
        ≡ ok (record c { sync_count = c.sync_count + 1 }, some (full_reply last_id ph ds))
  unfolding sync_reply
  sync_reply-shown last_id ph ds = rw (sync_loop-shown ph.messages ds last_id) (
      ap
        (λ b. ok (
          record c { sync_count = c.sync_count + 1 },
          some (record { batch = b; notify = (full_reply last_id ph ds).notify }),
        ))
        (batch-resolved (final_key last_id ph) (shown_all kefu_appid c ph.messages ds)))

  -- If the client is authenticated, the storage server answers the call with a history, and the
  -- bytes of each of its messages decode for its command, then `HandleSync` does not panic, that
  -- is, every type assertion of `isSender` holds, and what the client gets is: the begin and the
  -- end with the same key, which is the id of the newest message (the client's own key if there is
  -- none), or the server's last id where that is positive and below the client's; between them the
  -- messages, oldest first, each flagged as its own exactly if the client's user sent it from this
  -- device; and then a notice of the server's last id plus one if there are more.
  pub handle_sync_message-shown :
      (get_sync_key : ℕ → ℕ → ℕ) (sync_message : ℕ → ℕ → ℕ → ℕ → Option PeerHistoryMessage)
      (sync_key last_id : ℕ) (ph : PeerHistoryMessage) (ds : All Decoded ph.messages)
      → (c.uid == 0) ≡ false
      → last_id ≡ (if sync_key == 0 then get_sync_key c.appid c.uid else sync_key)
      → sync_message c.appid c.uid c.device_id last_id ≡ some ph
      → handle_sync_message kefu_appid get_sync_key sync_message sync_key c
        ≡ ok (record c { sync_count = c.sync_count + 1 }, some (full_reply last_id ph ds))
  unfolding handle_sync_message
  handle_sync_message-shown get_sync_key sync_message sync_key last_id ph ds u k e =
      let answered = subst (λ i. sync_message c.appid c.uid c.device_id i ≡ some ph) k e in
      rw u (
        rw (answered, handle_sync_message)
          (ap (λ i. sync_reply kefu_appid c i ph) (sym k) ∙ sync_reply-shown last_id ph ds))
