-- ===== src/Ims/Storage/Defs.antt =====
-- The state of the storage server and what its two halves share.
use im_service.Prelude.{
  ℕ, zero, suc, ◌+◌, ◌*◌, ◌-◌, Bool, ◌&&◌, List, [], ◌∷◌, Option, none, some, length, drop, ltb,
  ◌==◌, if◌then◌else◌,
}
use im_service.Prelude.Bytes.{Bytes}
use im_service.Core.Body.{Message, Body, Nested, OfflineMessage}
use im_service.Core.Decode.{Outcome, ok, refused, panic, stuck, ◌>>=◌}
use im_service.Ims.StorageFile.{StorageFile, block_size, header_size, read_message, or_nil}

-- `UserID` and `GroupID`: the appid, and the uid or the gid.
pub record Key : Type 0 where
  pub appid : ℕ
  pub id : ℕ

unfoldable pub same_key : Key → Key → Bool
same_key k j = k.appid == j.appid && k.id == j.id

-- A map from keys, in some order.
abbrev pub Index {ℓ} : Type ℓ → Type ℓ
Index V = List (Key × V)

module _ {ℓ} {V : Type ℓ} where
  unfoldable pub lookup : Key → Index V → Option V
  lookup k [] = none
  lookup k ((j, v) ∷ m) = if same_key j k then some v else lookup k m

  unfoldable pub insert : Key → V → Index V → Index V
  insert k v [] = (k, v) ∷ []
  insert k v ((j, w) ∷ m) = if same_key j k then (k, v) ∷ m else (j, w) ∷ insert k v m

pub record UserIndex : Type 0 where
  pub last_msgid : ℕ
  pub last_id : ℕ
  pub last_peer_id : ℕ
  pub last_batch_id : ℕ
  pub last_seq_id : ℕ

pub record GroupIndex : Type 0 where
  pub last_msgid : ℕ
  pub last_id : ℕ
  pub last_batch_id : ℕ
  pub last_seq_id : ℕ

-- `Storage`, with the `message_index` of its `PeerStorage` and of its `GroupStorage`.
pub record Storage : Type 0 where
  pub file : StorageFile
  pub peer_index : Index UserIndex
  pub group_index : Index GroupIndex

-- `EMessage`: a message, its id and the device that sent it.
pub record EMessage : Type 0 where
  pub msg_id : ℕ
  pub device_id : ℕ
  pub msg : Nested

abbrev pub batch_size : ℕ
batch_size = 1000

-- `msg.Body.(core.IOfflineMessage)` and its `Body()`.
unfoldable pub offline_body : Body → Option OfflineMessage
offline_body (Body.offline1 o) = some o
offline_body (Body.offline2 o) = some o
offline_body (Body.offline3 o) = some o
offline_body (Body.offline4 o) = some o
offline_body (Body.group_offline o) = some o
offline_body _ = none

-- The update of `last_id` in `setPeerIndex` and `setGroupIndex`.
unfoldable pub raise_last_id : ℕ → StorageFile → StorageFile
raise_last_id id f = if ltb f.last_id id then record f { last_id = id } else f

-- The inner loop of the scans: `exec` on each message of the file's rest, up to the first that cannot
-- be read. `position` is the offset of the rest. The message `skip`, if any, is passed over.
unfoldable pub scan_file {ℓ} :
    {S : Type ℓ}
    → (Message → ℕ → S → Outcome S)
    → (ℕ → S → Bool)
    → ℕ
    → ℕ
    → ℕ
    → Bytes
    → S
    → Outcome S
scan_file exec skip zero block position bytes s = stuck
scan_file exec skip (suc fuel) block position bytes s = elim (or_nil (read_message bytes)) [
  | ok none ↦ ok s
  | ok (some (m, rest)) ↦ do
    let id = block * block_size + position
    s' ← if skip id s then ok s else exec m id s
    scan_file exec skip fuel block (position + (length bytes - length rest)) rest s'
  | refused ↦ refused
  | panic ↦ panic
  | stuck ↦ stuck
]

-- `for i := first; i <= block_NO; i++` over `count` blocks from `block` on. A file that is gone is
-- passed over; the first scan starts at `offset`, and the others behind the header.
unfoldable pub scan_blocks {ℓ} :
    {S : Type ℓ}
    → (ℕ → Option Bytes)
    → (Message → ℕ → S → Outcome S)
    → (ℕ → S → Bool)
    → (count block offset : ℕ) → S
    → Outcome S
scan_blocks disk exec skip zero block offset s = ok s
scan_blocks disk exec skip (suc count) block offset s = elim (disk block) [
  | none ↦ scan_blocks disk exec skip count (block + 1) header_size s
  | some bytes ↦ do
    s' ← scan_file exec skip (suc (length bytes)) block offset (drop offset bytes) s
    scan_blocks disk exec skip count (block + 1) header_size s'
]
