-- ===== src/Core/Decode/Receive.antt =====
-- `ReadHeader` and `ReceiveLimitMessage`.
use im_service.Prelude.{
  ℕ, zero, suc, ◌*◌, Bool, true, false, ◌||◌, ◌&&◌, not, none, length, take, drop, ltb, leb,
  if◌then◌else◌,
}
use im_service.Prelude.Bytes.{Bytes, read_be, neg64, extend32}
use im_service.Core.Body.{Message}
use im_service.Core.Command.{external_messages}
use im_service.Core.Decode.Fields.{Outcome, ok, refused, stuck, ◌>>=◌}
use im_service.Core.Decode.Bodies.{from_data}

pub record Header : Type 0 where
  pub length : ℕ
  pub seq : ℕ
  pub cmd : ℕ
  pub version : ℕ
  pub flag : ℕ

unfoldable pub read_header : Bytes → Header
unfolding extend32
read_header buff =
    let (len, b1) = read_be 4 0 buff in
    let (seq, b2) = read_be 4 0 b1 in
    let (cmd, b3) = read_be 1 0 b2 in
    let (version, b4) = read_be 1 0 b3 in
    let (flag, b5) = read_be 1 0 b4 in
    record { length = extend32 len; seq = extend32 seq; cmd = cmd; version = version; flag = flag }

abbrev pub receive_limit : ℕ
receive_limit = 32 * 1024

-- `ReceiveLimitMessage(conn, limit_size, external)`: the message and what is left of `conn`. A body
-- that holds messages is decoded with one unit of fuel less, by `ReceiveMessage`.
unfoldable pub receive_limit_message : ℕ → ℕ → Bool → Bytes → Outcome (Message × Bytes)
receive_limit_message zero limit_size external conn = stuck
receive_limit_message (suc fuel) limit_size external conn =
    let receive = receive_limit_message fuel receive_limit false in
    let h = read_header (take 12 conn) in
    let body_bytes = drop 12 conn in
    if ltb (length conn) 12
    then refused
    else if neg64 h.length || leb limit_size h.length
    then refused
    else if external && not (external_messages h.cmd)
    then refused
    else if ltb (length body_bytes) h.length
    then refused
    else do
      body ← from_data receive h.cmd h.version (take h.length body_bytes)
      ok (Message.message h.cmd h.seq h.version h.flag body none, drop h.length body_bytes)

-- Each message inside a message is at least 12 bytes shorter, so the length of the input is fuel
-- enough.
unfoldable pub receive_message : Bytes → Outcome (Message × Bytes)
receive_message conn = receive_limit_message (suc (length conn)) receive_limit false conn

unfoldable pub receive_client_message : Bytes → Outcome (Message × Bytes)
receive_client_message conn = receive_limit_message (suc (length conn)) receive_limit true conn

unfoldable pub receive_storage_sync_message : Bytes → Outcome (Message × Bytes)
receive_storage_sync_message conn =
    receive_limit_message (suc (length conn)) (32 * 1024 * 1024) false conn

unfoldable pub receive_storage_message : Bytes → Outcome (Message × Bytes)
receive_storage_message conn = receive_limit_message (suc (length conn)) (1024 * 1024) false conn
