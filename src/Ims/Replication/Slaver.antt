-- ===== src/Ims/Replication/Slaver.antt =====
-- A slave keeps the files of its master: `SaveSyncMessage` against `saveMessage`.
use im_service.Prelude.{
  ℕ, ◌+◌, ◌-◌, ◌<◌, ◌≡◌, refl, ap, ◌∙◌, true, false, [], ◌∷◌, ◌++◌, Option, arith, length, ltb,
  ◌==◌, Bool-cases, inl, inr, append-nil,
}
use im_service.Prelude.Bytes.{Bytes}
use im_service.Core.Body.{Message}
use im_service.Core.RoundTrip.Sent.{received}
use im_service.Core.RoundTrip.Again.{write_message-received}
use im_service.Ims.StorageFile.{
  StorageFile, block_size, get_block_no, get_block_offset, contents, put_file, open_write_file,
  record_bytes, fits, roll, append_record,
}
use im_service.Ims.StorageFile.Stored.{
  IsStorable, Ready, saved, roll-Ready, length-record, open_write_file-block_no,
}
use im_service.Ims.Storage.{Storage}
use im_service.Ims.Replication.Defs.{
  exec_message, padding, enter_block, write_at, save_sync_message,
}

-- Two storage files with the same block files, which write the same block.
abbrev pub SameFiles : StorageFile → StorageFile → Type 0
SameFiles f g = ((b : ℕ) → f.disk b ≡ g.disk b) × (f.block_no ≡ g.block_no)

contents-same :
    (f g : StorageFile) (b : ℕ) → f.disk b ≡ g.disk b → contents f.disk b ≡ contents g.disk b
unfolding contents
contents-same f g b e = rw e refl

put_file-same :
    (d e : ℕ → Option Bytes) (b c : ℕ) (x y : Bytes)
    → ((i : ℕ) → d i ≡ e i)
    → b ≡ c
    → x ≡ y
    → (i : ℕ) → put_file d b x i ≡ put_file e c y i
unfolding put_file
put_file-same d e b c x y h hb hx i = rw (hb, hx, h i) refl

open_write_file-same :
    (f g : StorageFile) (b c : ℕ)
    → SameFiles f g
    → b ≡ c
    → SameFiles (open_write_file b f) (open_write_file c g)
unfolding open_write_file
open_write_file-same f g b c (h, hb) e =
    let same : contents f.disk b ≡ contents g.disk c =
      contents-same f g b (h b) ∙ ap (contents g.disk) e in
    (put_file-same f.disk g.disk b c _ _ h e (rw same refl), e)

pub record_bytes-received : (m : Message) → record_bytes (received m) ≡ record_bytes m
unfolding record_bytes
record_bytes-received m = rw (write_message-received m) refl

module _ (m : Message) (s t : StorageFile) (same : SameFiles t s) where
  enter_block-same : SameFiles (enter_block (roll m s).block_no t) (roll m s)
  unfolding enter_block roll
  enter_block-same = elim (Bool-cases (fits m s)) [
    | inl e ↦
        let z : s.block_no - t.block_no == 1 ≡ false = ground (arith, same.1) in rw (e, z) same
    | inr e ↦
        let n = open_write_file-block_no (s.block_no + 1) s in
        let z : (open_write_file (s.block_no + 1) s).block_no - t.block_no == 1 ≡ true =
          rw (n, same.1) (ground arith) in
        rw (e, z) (open_write_file-same t s _ _ same n)
  ]

  write_at-same :
      (g : StorageFile)
      → SameFiles g (roll m s)
      → SameFiles
          (write_at (length (contents (roll m s).disk (roll m s).block_no)) (received m) g)
          (append_record m (roll m s)).0
  unfolding write_at append_record padding
  write_at-same g (h, e) =
      let f = roll m s in
      let c : contents g.disk g.block_no ≡ contents f.disk f.block_no =
        contents-same g f g.block_no (h g.block_no) ∙ ap (contents f.disk) e in
      let z : length (contents f.disk f.block_no) - length (contents f.disk f.block_no) ≡ 0 =
        omega arith in
      (
        put_file-same _ _ _ _ _ _ h e (
            rw (c, record_bytes-received m, z) (rw (append-nil (contents f.disk f.block_no)) refl)),
        e,
      )

module _ (m : Message) (s t : Storage) (same : SameFiles t.file s.file) (r : Ready s.file)
    (hm : IsStorable m) where
  abbrev rolled : StorageFile
  rolled = roll m s.file

  abbrev entered : StorageFile
  entered = enter_block rolled.block_no t.file

  abbrev size : ℕ
  size = length (contents rolled.disk rolled.block_no)

  -- The file of the slave after the message.
  abbrev pub synced : StorageFile
  synced = write_at size (received m) entered

  pub synced-same : SameFiles synced (saved m s.file).0
  synced-same = write_at-same m s.file t.file same entered (enter_block-same m s.file t.file same)

  room : size < block_size
  unfolding fits
  room = ground (arith, (roll-Ready m s.file r hm).1, length-record m s.file r hm)

  id_parts :
      (get_block_no (saved m s.file).1 ≡ rolled.block_no)
      × (get_block_offset (saved m s.file).1 ≡ size)
  unfolding append_record
  id_parts = (omega (arith, room), omega (arith, room))

  near :
      (ltb rolled.block_no t.file.block_no ≡ false)
      × (ltb 1 (rolled.block_no - t.file.block_no) ≡ false)
  unfolding roll
  near = elim (Bool-cases (fits m s.file)) [
    | inl e ↦ rw (e, same.1) (ground arith, ground arith)
    | inr e ↦
        rw (e, same.1, open_write_file-block_no (s.file.block_no + 1) s.file)
          (ground arith, ground arith)
  ]

  not_there : ltb size (length (contents entered.disk entered.block_no)) ≡ false
  not_there =
      let (h, e) = enter_block-same m s.file t.file same in
      rw
        (contents-same entered rolled entered.block_no (h entered.block_no)
          ∙ ap (contents rolled.disk) e)
        (ground arith)

  pub save_sync_message-saved :
      save_sync_message (saved m s.file).1 (received m) t
      ≡ exec_message (received m) (saved m s.file).1 (record t { file = synced })
  unfolding save_sync_message
  save_sync_message-saved = rw (id_parts.0, id_parts.1, near.0, near.1, not_there) refl

-- What `saveMessage` sends to `master.ewt`.
pub saved-ewt :
    (m : Message) (f : StorageFile) → (saved m f).0.ewt ≡ f.ewt ++ ((saved m f).1, m) ∷ []
unfolding append_record roll open_write_file
saved-ewt m f = elim (Bool-cases (fits m f)) [
  | inl e ↦ rw (e, roll) refl
  | inr e ↦ rw (e, roll) refl
]
