-- ===== src/Ims/StorageFile/Stored.antt =====
-- What is saved can be loaded, and later writes do not change it.
use im_service.Prelude.{
  ℕ, ◌+◌, ◌≤◌, ◌<◌, ◌≡◌, ◌≢◌, refl, sym, ap, ◌∙◌, append-nil, true, [], ◌++◌, Option, none, some,
  length, le→ltb, arith, length-append, drop-append, append_assoc, Bool-cases, inl, inr,
}
use im_service.Prelude.Bytes.{Bytes, write_be, read4, lengths}
use im_service.Core.Body.{Message}
use im_service.Core.Encode.{write_message}
use im_service.Core.Decode.{Outcome, ok, receive_limit}
use im_service.Core.RoundTrip.Sent.{IsSendable, received}
use im_service.Core.RoundTrip.Whole.{receive_message-write}
use im_service.Ims.StorageFile.Defs.{
  StorageFile, contents, put_file, block_size, header_size, magic, file_header, open_write_file,
  open_read_file, get_block_no, get_block_offset, get_file, read_message, or_nil, load_message,
  record_bytes, fits, roll, append_record, save_message,
}
use native.Mathlib.Decide.{ℕ_discrete}

-- A message that can be sent, within the limit of `ReceiveMessage`.
abbrev pub IsStorable : Message → Type 0
IsStorable m = IsSendable m × (length (write_message m) < 12 + receive_limit)

pub length-record_bytes :
    (m : Message) (rest : Bytes)
    → length (record_bytes m ++ rest) ≡ 8 + length (write_message m) + length rest
unfolding record_bytes
length-record_bytes m rest =
    length-append (record_bytes m) rest
    ∙ omega (lengths, length-append (write_message m) (write_be 4 magic))

-- The record of a storable message, followed by anything, is read back as the message that its
-- receiver sees, and what follows it is left.
pub read_message-record :
    (m : Message) (rest : Bytes)
    → IsStorable m
    → read_message (record_bytes m ++ rest) ≡ ok (received m, rest)
unfolding read_message record_bytes
read_message-record m rest (hs, hl) =
    let end : Bytes = write_be 4 magic ++ rest in
    simp (
      append_assoc (write_be 4 magic) (write_message m ++ write_be 4 magic) rest,
      append_assoc (write_message m) (write_be 4 magic) rest,
      le→ltb (length (write_be 4 magic ++ (write_message m ++ end))) 4 (omega lengths),
      read4 magic 0 (omega arith),
      receive_message-write m end hs hl,
      le→ltb (length end) 4 (omega lengths),
      read4 magic magic (omega arith),
    )

-- The file of the id's block holds the record of `m` at the id's offset.
pub record Stored (disk : ℕ → Option Bytes) (id : ℕ) (m : Message) : Type 0 where
  pub front : Bytes
  pub back : Bytes
  pub on_disk : disk (get_block_no id) ≡ some (front ++ (record_bytes m ++ back))
  pub offset : length front ≡ get_block_offset id
  pub storable : IsStorable m

pub contents-some :
    (disk : ℕ → Option Bytes) (b : ℕ) (bytes : Bytes)
    → disk b ≡ some bytes
    → contents disk b ≡ bytes
unfolding contents
contents-some disk b bytes h = ground arith

pub get_file-disk : (b : ℕ) (s : StorageFile) → (get_file b s).0.disk ≡ s.disk
unfolding get_file
get_file-disk b s = ground arith

get_file-some :
    (b : ℕ) (s : StorageFile) (bytes : Bytes) → s.disk b ≡ some bytes → (get_file b s).1 ≡ some b
unfolding get_file open_read_file
get_file-some b s bytes h = ground arith

-- A stored message is loaded, whatever handles are open. Only the open handles change.
pub load_message-Stored :
    (s : StorageFile) (id : ℕ) (m : Message)
    → Stored s.disk id m
    → load_message id s ≡ ok ((get_file (get_block_no id) s).0, some (received m))
unfolding load_message or_nil
load_message-Stored s id m h =
    rw
      (
        get_file-some (get_block_no id) s (h.front ++ (record_bytes m ++ h.back)) h.on_disk,
        load_message,
      )
      (simp (
        get_file-disk (get_block_no id) s,
        contents-some s.disk (get_block_no id) _ h.on_disk,
        drop-append h.front (record_bytes m ++ h.back) (get_block_offset id) h.offset,
        read_message-record m h.back h.storable,
      ))

-- The file that is written has its header and is not too large, and there is none behind it.
pub record Ready (s : StorageFile) : Type 0 where
  pub bytes : Bytes
  pub present : s.disk s.block_no ≡ some bytes
  pub header : header_size ≤ length bytes
  pub size : length bytes ≤ block_size
  pub fresh : (b : ℕ) → s.block_no < b → s.disk b ≡ none

pub put_file_self :
    (disk : ℕ → Option Bytes) (b : ℕ) (bytes : Bytes) → put_file disk b bytes b ≡ some bytes
unfolding put_file
put_file_self disk b bytes = ground arith

pub put_file_ne :
    (disk : ℕ → Option Bytes) (b c : ℕ) (bytes : Bytes) → c ≢ b → put_file disk b bytes c ≡ disk c
unfolding put_file
put_file_ne disk b c bytes h = ground arith

pub length-file_header : length file_header ≡ 32
unfolding file_header
length-file_header = omega lengths

-- A file that is not there yet is opened with its header.
pub open_write_file-fresh :
    (b : ℕ) (s : StorageFile)
    → s.disk b ≡ none
    → (open_write_file b s).disk ≡ put_file s.disk b file_header
unfolding open_write_file contents
open_write_file-fresh b s h = ground arith

regroup : (a b c d : Bytes) → (a ++ (b ++ c)) ++ d ≡ a ++ (b ++ (c ++ d))
regroup a b c d = simp append_assoc

pub open_write_file-block_no : (b : ℕ) (s : StorageFile) → (open_write_file b s).block_no ≡ b
unfolding open_write_file
open_write_file-block_no b s = refl

open_write_file-contents :
    (b : ℕ) (s : StorageFile)
    → s.disk b ≡ none
    → contents (open_write_file b s).disk b ≡ file_header
open_write_file-contents b s h =
    contents-some (open_write_file b s).disk b file_header
      (rw (open_write_file-fresh b s h) (put_file_self s.disk b file_header))

module _ (m : Message) (s : StorageFile) (r : Ready s) (hm : IsStorable m) where
  pub length-record : length (record_bytes m) ≡ 8 + length (write_message m)
  length-record = omega (arith, length-record_bytes m [], ap length (append-nil (record_bytes m)))

  -- The next block is new: it holds the header alone.
  open_next-Ready : Ready (open_write_file (s.block_no + 1) s)
  unfolding open_write_file
  open_next-Ready =
      let b = s.block_no + 1 in
      let e = open_write_file-fresh b s (r.fresh b (omega arith)) in
      record {
        bytes = file_header;
        present = rw e (put_file_self s.disk b file_header);
        header = omega (arith, length-file_header);
        size = omega (arith, length-file_header);
        fresh = λ c h.
            rw e (put_file_ne s.disk b c file_header (ground arith) ∙ r.fresh c (omega arith));
      }

  open_next-fits : fits m (open_write_file (s.block_no + 1) s) ≡ true
  unfolding fits
  open_next-fits =
      let b = s.block_no + 1 in
      rw (open_write_file-block_no b s, open_write_file-contents b s (r.fresh b (omega arith)))
        (ground (arith, length-file_header, length-record, hm.1))

  -- Either the record fits the file, or it fits the next one.
  pub roll-Ready : Ready (roll m s) × (fits m (roll m s) ≡ true)
  unfolding roll
  roll-Ready = elim (Bool-cases (fits m s)) [
    | inl e ↦ rw e (r, e)
    | inr e ↦ rw e (open_next-Ready, open_next-fits)
  ]

  -- The record is at the end of the file, and the file is still in order.
  pub append-Ready : fits m s ≡ true → Ready (append_record m s).0
  unfolding append_record fits
  append-Ready h =
      let b = s.block_no in
      let bytes = r.bytes ++ record_bytes m in
      let len = length-append r.bytes (record_bytes m) in
      let here = contents-some s.disk b r.bytes r.present in
      record {
        bytes = bytes;
        present = rw here (put_file_self s.disk b bytes);
        header = omega (arith, r.header, len);
        size = ground (arith, here, len, h);
        fresh = λ c hc. put_file_ne s.disk b c _ (ground arith) ∙ r.fresh c hc;
      }

  append-Stored : fits m s ≡ true → Stored (append_record m s).0.disk (append_record m s).1 m
  unfolding append_record fits
  append-Stored h =
      let here = contents-some s.disk s.block_no r.bytes r.present in
      let room : length r.bytes < block_size = ground (arith, here, h, length-record) in
      let block : get_block_no (append_record m s).1 ≡ s.block_no = rw here (omega (arith, room)) in
      let at : get_block_offset (append_record m s).1 ≡ length r.bytes =
        rw here (omega (arith, room)) in
      record {
        front = r.bytes;
        back = [];
        on_disk = rw (block, here, append-nil (record_bytes m)) (put_file_self s.disk s.block_no _);
        offset = sym at;
        storable = hm;
      }

module _ (m : Message) (s : StorageFile) (r : Ready s) (id : ℕ) (n : Message)
    (h : Stored s.disk id n) where
  roll-keeps : Stored (roll m s).disk id n
  unfolding roll
  roll-keeps = elim (Bool-cases (fits m s)) [
    | inl e ↦ rw e h
    | inr e ↦ rw e (record {
      front = h.front;
      back = h.back;
      on_disk =
          rw (open_write_file-fresh (s.block_no + 1) s (r.fresh (s.block_no + 1) (omega arith))) (
            put_file_ne s.disk (s.block_no + 1) (get_block_no id) file_header elsewhere
            ∙ h.on_disk);
      offset = h.offset;
      storable = h.storable;
    })
  ]
    where
      elsewhere : get_block_no id ≢ s.block_no + 1
      elsewhere e = cc (r.fresh (get_block_no id) (omega (arith, e)), h.on_disk)

  append-keeps : Stored (append_record m s).0.disk id n
  unfolding append_record
  append-keeps = elim (ℕ_discrete (get_block_no id) s.block_no) [
    | no other ↦ record {
      front = h.front;
      back = h.back;
      on_disk = put_file_ne s.disk s.block_no (get_block_no id) _ other ∙ h.on_disk;
      offset = h.offset;
      storable = h.storable;
    }
    | yes same ↦ record {
      front = h.front;
      back = h.back ++ record_bytes m;
      on_disk =
          rw (same, contents-some s.disk s.block_no _ (rw same at h.on_disk))
            (put_file_self s.disk s.block_no _
              ∙ ap some (regroup h.front (record_bytes n) h.back (record_bytes m)));
      offset = h.offset;
      storable = h.storable;
    }
  ]

-- The message that a call of `LoadMessage` returns.
abbrev pub loaded : Outcome (StorageFile × Option Message) → Option Message
loaded (ok (s, m)) = m
loaded _ = none

-- The state after `saveMessage` of a message, and the id that it returns.
abbrev pub saved : Message → StorageFile → StorageFile × ℕ
saved m s = append_record m (roll m s)

module _ (m : Message) (s : StorageFile) (r : Ready s) (hm : IsStorable m) where
  -- Saving a message of at most 32 KB succeeds: there is room for it in this file or in the next.
  pub save_message-saved : save_message m s ≡ ok (saved m s)
  unfolding save_message
  save_message-saved = rw (roll-Ready m s r hm).1

  pub saved-Ready : Ready (saved m s).0
  saved-Ready = let (r', e) = roll-Ready m s r hm in append-Ready m (roll m s) r' hm e

  pub saved-Stored : Stored (saved m s).0.disk (saved m s).1 m
  saved-Stored = let (r', e) = roll-Ready m s r hm in append-Stored m (roll m s) r' hm e

  pub saved-keeps : (id : ℕ) (n : Message) → Stored s.disk id n → Stored (saved m s).0.disk id n
  saved-keeps id n h =
      let (r', e) = roll-Ready m s r hm in
      append-keeps m (roll m s) r' id n (roll-keeps m s r id n h)
