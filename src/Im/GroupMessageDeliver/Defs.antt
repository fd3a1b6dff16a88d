-- ===== src/Im/GroupMessageDeliver/Defs.antt =====
-- `GroupMessageDeliver`: the file of pending messages, the cursor and the callbacks. `send` stands for
-- `sendGroupMessage`. A call that holds the mutex of the file is one step, and so is a flush.
use im_service.Prelude.{
  ℕ, zero, suc, ◌+◌, ◌-◌, ◌*◌, ◌%◌, ◌^◌, not, ◌&&◌, ◌||◌, List, [], ◌∷◌, ◌++◌, Option, none, some,
  length, take, drop, ltb, leb, ◌==◌, if◌then◌else◌,
}
use im_service.Prelude.Maps.{Map, value_at, put, delete}
use im_service.Prelude.Bytes.{Bytes, write_be, read_be, extend32}
use im_service.Core.Body.{Message, Body, Metadata, PendingGroupMessage, cmd, body, version}
use im_service.Core.Command.{msg_pending_group_message}
use im_service.Core.Encode.{write_message, to_data}
use im_service.Core.Decode.{Outcome, ok, refused, panic, stuck, ◌>>=◌, receive_storage_message}

abbrev pub header_size : ℕ
header_size = 32

abbrev pub magic : ℕ
magic = 0x494d494d

abbrev pub f_version : ℕ
f_version = 65536

-- `WriteHeader`.
unfoldable pub pending_header : Bytes
pending_header = write_be 4 magic ++ (write_be 4 f_version ++ write_be 24 0)

-- `openWriteFile`: what the file of that content holds after it.
unfoldable pub open_pending : Bytes → Bytes
open_pending bytes =
    let kept : Bytes =
      if ltb (length bytes) header_size && ltb 0 (length bytes) then [] else bytes in
    if length kept == 0 then pending_header else kept

-- `openCursorFile`: the content of the cursor file after it, and the cursor.
unfoldable pub open_cursor : Bytes → Bytes × ℕ
open_cursor bytes =
    if ltb (length bytes) 8 then (write_be 8 0, 0) else (bytes, (read_be 8 0 bytes).0)

-- `readLatestMessageID`; the length of the last message is an int32.
unfoldable pub read_latest_message_id : Bytes → Outcome ℕ
read_latest_message_id file =
    let offset = length file - 8 in
    let (msg_len, rest) = read_be 4 0 (drop offset file) in
    let (m, rest') = read_be 4 0 rest in
    if leb offset header_size
    then ok 0
    else if m == magic
    then ok ((offset + 2 ^ 65 - extend32 msg_len - 8) % 2 ^ 64)
    else panic

-- `ReadMessage`, on what the file still holds: the message and what follows it.
unfoldable pub read_pending_message : Bytes → Outcome (Message × Bytes)
read_pending_message b0 =
    let (before, b1) = read_be 4 0 b0 in
    let (len, b2) = read_be 4 0 b1 in
    if ltb (length b0) 4 || not (before == magic)
    then refused
    else if ltb (length b1) 4
    then refused
    else do
      (m, b3) ← receive_storage_message b2
      let (len', b4) = read_be 4 len b3
      let (after, b5) = read_be 4 before b4
      if ltb (length b3) 4 || (ltb (length b4) 4 || not (after == magic))
          then refused
          else ok (m, b5)

-- What `saveMessage` writes at the end of the file.
unfoldable pub pending_record : Message → Bytes
pending_record m =
    let msg_len = (12 + length (to_data (version m) (body m))) % 2 ^ 32 in
    write_be 4 magic
    ++ (write_be 4 msg_len ++ (write_message m ++ (write_be 4 msg_len ++ write_be 4 magic)))

-- `wt` holds the ids in the channel `wt`, and `chans` what each callback channel holds, which has room
-- for one. `net` is the state of all that `sendGroupMessage` calls.
pub record Deliver (W : Type 0) : Type 0 where
  pub file : Bytes
  pub cursor : Bytes
  pub latest_msgid : ℕ
  pub latest_sended_msgid : ℕ
  pub wt : List ℕ
  pub id : ℕ
  pub callbacks : Map ℕ
  pub callbackid_to_msgid : Map ℕ
  pub chans : Map Metadata
  pub net : W

module _ {W : Type 0} where
  -- `NewGroupMessageDeliver`, on the two files that it finds.
  unfoldable pub new_deliver : Bytes → Bytes → Map Metadata → W → Outcome (Deliver W)
  new_deliver file cursor chans net = do
    let f = open_pending file
    let (c, sended) = open_cursor cursor
    latest ← read_latest_message_id f
    ok (record {
      file = f;
      cursor = c;
      latest_msgid = latest;
      latest_sended_msgid = sended;
      wt = [];
      id = 0;
      callbacks = [];
      callbackid_to_msgid = [];
      chans = chans;
      net = net;
    })

  unfoldable pub save_cursor : Deliver W → Deliver W
  save_cursor s = record s { cursor = write_be 8 s.latest_sended_msgid ++ drop 8 s.cursor }

  unfoldable pub clear_callback : Deliver W → Deliver W
  clear_callback s = record s { callbacks = []; callbackid_to_msgid = [] }

  -- `DoCallback`: a send that does not wait, to a channel with room for one.
  unfoldable pub do_callback : ℕ → Metadata → Deliver W → Deliver W
  do_callback msgid meta s = elim (value_at msgid s.callbacks) [
    | none ↦ s
    | some ch ↦ elim (value_at ch s.chans) [
      | none ↦ record s { chans = put ch meta s.chans }
      | some old ↦ s
    ]
  ]

  unfoldable pub add_callback : ℕ → ℕ → Deliver W → Deliver W × ℕ
  add_callback msgid ch s =
      let id = (s.id + 1) % 2 ^ 64 in
      (
        record s {
          id = id;
          callbacks = put msgid ch s.callbacks;
          callbackid_to_msgid = put id msgid s.callbackid_to_msgid;
        },
        id,
      )

  unfoldable pub remove_callback : ℕ → Deliver W → Deliver W
  remove_callback callback_id s = elim (value_at callback_id s.callbackid_to_msgid) [
    | none ↦ s
    | some msgid ↦ record s {
      callbacks = delete msgid s.callbacks;
      callbackid_to_msgid = delete callback_id s.callbackid_to_msgid;
    }
  ]

  -- `SaveMessage`, with a callback channel or without: the callback's id, or 0.
  unfoldable pub save_pending_message : Message → Option ℕ → Deliver W → Deliver W × ℕ
  unfolding add_callback
  save_pending_message m ch s =
      let msgid = length s.file in
      let t = record s { file = s.file ++ pending_record m; latest_msgid = msgid } in
      let (t', callback_id) : Deliver W × ℕ = elim ch [
        | none ↦ (t, 0)
        | some c ↦ add_callback msgid c t
      ] in
      (record t' { wt = if ltb (length t'.wt) 10 then t'.wt ++ msgid ∷ [] else t'.wt }, callback_id)

  unfoldable pub truncate_file : Deliver W → Deliver W
  unfolding save_cursor
  truncate_file s =
      save_cursor
        (record s { file = take header_size s.file; latest_msgid = 0; latest_sended_msgid = 0 })

  module _ (send : PendingGroupMessage → W → W × Option Metadata) where
    -- The rest of a round of the loop of `sendPendingMessage`, past `ReadMessage`.
    unfoldable pub send_one :
        (Deliver W → Outcome (Deliver W)) → ℕ → Message → Deliver W → Outcome (Deliver W)
    send_one next msgid m s =
        if leb msgid s.latest_sended_msgid || not (cmd m == msg_pending_group_message)
        then next s
        else elim (body m) [
          | Body.pending_group gm ↦
              let (net, meta) = send gm s.net in
              let t = record s { net = net } in
              elim meta [
                | none ↦ ok t
                | some meta ↦ next (
                    save_cursor (record (do_callback msgid meta t) { latest_sended_msgid = msgid }))
              ]
          | _ ↦ panic
        ]

    -- The loop, with what the file still holds. A record has 16 bytes at least: the length of the file
    -- is fuel enough.
    unfoldable pub send_loop : ℕ → ℕ → Bytes → Deliver W → Outcome (Deliver W)
    send_loop zero msgid bytes s = stuck
    send_loop (suc fuel) msgid bytes s = elim (read_pending_message bytes) [
      | ok (m, rest) ↦
          send_one (send_loop fuel (msgid + (length bytes - length rest)) rest) msgid m s
      | refused ↦ ok s
      | panic ↦ panic
      | stuck ↦ stuck
    ]

    unfoldable pub send_pending_message : Deliver W → Outcome (Deliver W)
    unfolding send_loop
    send_pending_message s =
        let offset = if s.latest_sended_msgid == 0 then header_size else s.latest_sended_msgid in
        send_loop (suc (length s.file)) offset (drop offset s.file) s

    -- The second half of `flushPendingMessage`, for a file that has grown past 128M.
    unfoldable pub cut_file : Deliver W → Outcome (Deliver W)
    cut_file s = do
      t ← if ltb s.latest_sended_msgid s.latest_msgid then send_pending_message s else ok s
      ok (if s.latest_msgid == t.latest_sended_msgid then clear_callback (truncate_file t) else t)

    unfoldable pub flush_pending_message : Deliver W → Outcome (Deliver W)
    flush_pending_message s =
        if ltb s.latest_sended_msgid s.latest_msgid
        then (do
          t ← send_pending_message s
          if ltb (128 * 1024 * 1024) t.latest_sended_msgid then cut_file t else ok t)
        else ok s
