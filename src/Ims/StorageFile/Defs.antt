-- ===== src/Ims/StorageFile/Defs.antt =====
-- `StorageFile` and its methods. `panic` is a `log.Fatal` or a panic: the process ends.
use im_service.Prelude.{
  ℕ, ◌+◌, ◌-◌, ◌*◌, ◌/◌, ◌%◌, Bool, true, false, not, ◌&&◌, ◌||◌, List, [], ◌∷◌, ◌++◌, Option, none,
  some, length, take, drop, ltb, ◌==◌, if◌then◌else◌,
}
use im_service.Prelude.Bytes.{Bytes, write_be, read_be}
use im_service.Core.Body.{Message}
use im_service.Core.Encode.{write_message}
use im_service.Core.Decode.{Outcome, ok, refused, panic, stuck, ◌>>=◌, receive_message}
use im_service.Lru.{Cache, new_cache, add, get}
unfoldable pub use native.Mathlib.Decide.{ℕ_discrete}
use mathlib.Core.Option

abbrev pub header_size : ℕ
header_size = 32

abbrev pub magic : ℕ
magic = 0x494d494d

abbrev pub f_version : ℕ
f_version = 65536

abbrev pub block_size : ℕ
block_size = 128 * 1024 * 1024

abbrev pub lru_size : ℕ
lru_size = 128

-- `files` says of which blocks a handle is open: the handle of a block reads the block's file. `ewt`
-- is what was sent to `master.ewt`, in order.
pub record StorageFile : Type 0 where
  pub disk : ℕ → Option Bytes
  pub dirty : Bool
  pub block_no : ℕ
  pub files : Cache ℕ (Unit {0})
  pub last_id : ℕ
  pub last_saved_id : ℕ
  pub ewt : List (ℕ × Message)

-- The bytes of a block's file; a file that does not exist has none.
unfoldable pub contents : (ℕ → Option Bytes) → ℕ → Bytes
contents disk b = Option.get_or (disk b) []

-- The disk after a write of the block's file.
unfoldable pub put_file : (ℕ → Option Bytes) → ℕ → Bytes → ℕ → Option Bytes
put_file disk b bytes c = if c == b then some bytes else disk c

-- `CheckFile`: the file ends as a message does.
unfoldable pub check_file : Bytes → Bool
check_file bytes =
    if length bytes == header_size
    then true
    else if ltb (length bytes) header_size
    then false
    else (read_be 4 0 (drop (length bytes - 4) bytes)).0 == magic

-- What `WriteHeader` writes.
unfoldable pub file_header : Bytes
file_header = write_be 4 magic ++ (write_be 4 f_version ++ write_be 24 0)

-- `ReadHeader`: the magic and the version, 0 on a short file.
unfoldable pub read_file_header : Bytes → ℕ × ℕ
read_file_header bytes =
    let (m, b1) = read_be 4 0 (take header_size bytes) in
    let (v, b2) = read_be 4 0 b1 in if ltb (length bytes) header_size then (0, 0) else (m, v)

-- `openWriteFile`: a file with half a header is cut to nothing, an empty one gets a header.
unfoldable pub open_write_file : ℕ → StorageFile → StorageFile
open_write_file b s =
    let bytes = contents s.disk b in
    let kept : Bytes =
      if ltb (length bytes) header_size && ltb 0 (length bytes) then [] else bytes in
    let opened : Bytes = if length kept == 0 then file_header else kept in
    record s { disk = put_file s.disk b opened; block_no = b; dirty = false }

-- `openReadFile`: the handle, if the file exists.
unfoldable pub open_read_file : ℕ → StorageFile → Option ℕ
open_read_file b s = elim (s.disk b) [ none ↦ none | some bytes ↦ some b ]

abbrev pub get_msg_id : ℕ → ℕ → ℕ
get_msg_id b offset = b * block_size + offset

abbrev pub get_block_no : ℕ → ℕ
get_block_no msg_id = msg_id / block_size

abbrev pub get_block_offset : ℕ → ℕ
get_block_offset msg_id = msg_id % block_size

-- `getFile`: a handle from the cache, or a new one, which is cached.
unfoldable pub get_file : ℕ → StorageFile → StorageFile × Option ℕ
get_file b s =
    let (touched, hit) = get ℕ_discrete b s.files in
    elim hit [
      | some open_file ↦ (record s { files = touched }, some b)
      | none ↦ elim (open_read_file b s) [
        | none ↦ (record s { files = touched }, none)
        | some file ↦ (record s { files = (add ℕ_discrete b tt touched).0 }, some file)
      ]
    ]

-- `ReadMessage`, on what a file still holds: a message between two magic numbers.
unfoldable pub read_message : Bytes → Outcome (Message × Bytes)
read_message bytes =
    let (before, rest) = read_be 4 0 bytes in
    if ltb (length bytes) 4 || not (before == magic) then refused else do
      (m, rest') ← receive_message rest
      let (after, rest'') = read_be 4 before rest'
      if ltb (length rest') 4 || not (after == magic) then refused else ok (m, rest'')

-- A result of nil.
unfoldable pub or_nil {ℓ} : {A : Type ℓ} → Outcome A → Outcome (Option A)
or_nil (ok a) = ok (some a)
or_nil refused = ok none
or_nil panic = panic
or_nil stuck = stuck

-- `LoadMessage`.
unfoldable pub load_message : ℕ → StorageFile → Outcome (StorageFile × Option Message)
load_message msg_id s =
    let (s', file) = get_file (get_block_no msg_id) s in
    elim file [
      | none ↦ ok (s', none)
      | some b ↦ do
        r ← or_nil (read_message (drop (get_block_offset msg_id) (contents s'.disk b)))
        ok (s', Option.map (λ p. p.0) r)
    ]

-- What `WriteMessage` writes, and `saveMessage`.
unfoldable pub record_bytes : Message → Bytes
record_bytes m = write_be 4 magic ++ (write_message m ++ write_be 4 magic)

-- `msgid+int64(len(buf)) > BLOCK_SIZE` fails at the end of the file that is written.
unfoldable pub fits : Message → StorageFile → Bool
fits m s = not (ltb block_size (length (contents s.disk s.block_no) + length (record_bytes m)))

-- The first `if` of `saveMessage`: on to the next block if this one would grow too large.
unfoldable pub roll : Message → StorageFile → StorageFile
roll m s = if fits m s then s else open_write_file (s.block_no + 1) s

-- The rest of `saveMessage`: the record at the end of the file, and its id.
unfoldable pub append_record : Message → StorageFile → StorageFile × ℕ
append_record m s =
    let bytes = contents s.disk s.block_no in
    let id = s.block_no * block_size + length bytes in
    (
      record s {
        disk = put_file s.disk s.block_no (bytes ++ record_bytes m);
        dirty = true;
        ewt = s.ewt ++ (id, m) ∷ [];
      },
      id,
    )

unfoldable pub save_message : Message → StorageFile → Outcome (StorageFile × ℕ)
save_message m s = let t = roll m s in if fits m t then ok (append_record m t) else panic

unfoldable pub flush : StorageFile → StorageFile
flush s = record s { dirty = false }

-- The loop of `NewStorageFile` over the block files that are there: the largest number, if every
-- file passes `CheckFile`.
unfoldable pub last_block : List ℕ → (ℕ → Option Bytes) → ℕ → Outcome ℕ
last_block [] disk b = ok b
last_block (f ∷ fs) disk b =
    let rest = last_block fs disk (if ltb b f then f else b) in
    if check_file (contents disk f) then rest else panic

unfoldable pub new_storage_file : List ℕ → (ℕ → Option Bytes) → Outcome StorageFile
unfolding last_block
new_storage_file blocks disk = do
  b ← last_block blocks disk 0
  ok (
      open_write_file b (record {
        disk = disk;
        dirty = false;
        block_no = b;
        files = new_cache lru_size;
        last_id = 0;
        last_saved_id = 0;
        ewt = [];
      }))
