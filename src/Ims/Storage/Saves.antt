-- ===== src/Ims/Storage/Saves.antt =====
-- What a save does to the log, and to what a scan of all blocks computes.
use im_service.Prelude.{
  ℕ, suc, false, ◌+◌, ◌*◌, ◌≡◌, refl, sym, ap, ◌∙◌, List, ◌++◌, length, arith, length-append,
  Bool-cases, inl, inr,
}
use im_service.Core.Body.{Message}
use im_service.Core.Decode.{Outcome, ok, ◌>>=◌}
use im_service.Core.RoundTrip.Sent.{received}
use im_service.Ims.StorageFile.{
  StorageFile, block_size, header_size, file_header, fits, roll, append_record, open_write_file,
  save_message,
}
use im_service.Ims.StorageFile.Stored.{
  IsStorable, saved, roll-Ready, save_message-saved, length-file_header, contents-some,
  open_write_file-block_no,
}
use im_service.Ims.Storage.{scan_blocks}
use im_service.Ims.Storage.Log.{
  scan_blocks-records, records, replay_blocks, replay_blocks-append, replay_blocks-empty,
}
use im_service.Ims.Storage.Logged.{
  Logged, add_log, add_log_self, add_log_ne, Logged-Ready, roll-Logged, append-Logged,
}

-- The log after `saveMessage` of a message.
abbrev pub saved_log : Message → StorageFile → (ℕ → List Message) → ℕ → List Message
saved_log m s log = add_log (roll m s).block_no m log

module _ (m : Message) (s : StorageFile) (log : ℕ → List Message) (h : Logged s log)
    (hm : IsStorable m) where
  -- Saving a storable message adds it to the log of the last block, or of a new one: each block
  -- file is still its header and the records of its log, no file lies behind the last block, and
  -- the last file is within the block size.
  pub saved-Logged : Logged (saved m s).0 (saved_log m s log)
  saved-Logged =
      append-Logged m (roll m s) log (roll-Logged m s log h hm) hm
        (roll-Ready m s (Logged-Ready h) hm).1

  pub save_message-Logged : save_message m s ≡ ok (saved m s)
  save_message-Logged = save_message-saved m s (Logged-Ready h) hm

  module _ {ℓ} {S : Type ℓ} (exec : Message → ℕ → S → Outcome S) (t : S) where
    roll-replay :
        replay_blocks exec log (suc (roll m s).block_no) 0 t
        ≡ replay_blocks exec log (suc s.block_no) 0 t
    unfolding roll
    roll-replay = elim (Bool-cases (fits m s)) [
      | inl e ↦ rw e refl
      | inr e ↦
          let n : (open_write_file (s.block_no + 1) s).block_no ≡ suc s.block_no =
            open_write_file-block_no (s.block_no + 1) s ∙ omega arith in
          rw (e, n)
            (replay_blocks-empty exec log (suc s.block_no) 0 t
              (h.empty (0 + suc s.block_no) (omega arith)))
    ]

    append-replay :
        replay_blocks exec (saved_log m s log) (suc (roll m s).block_no) 0 t
        ≡ (replay_blocks exec log (suc (roll m s).block_no) 0 t >>= exec (received m) (saved m s).1)
    unfolding append_record
    append-replay =
        let b = (roll m s).block_no in
        let here =
          contents-some (roll m s).disk b (file_header ++ records (log b))
            ((roll-Logged m s log h hm).holds b (omega arith)) in
        let id : (saved m s).1 ≡ b * block_size + (header_size + length (records (log b))) =
          rw here
            (omega (arith, length-append file_header (records (log b)), length-file_header)) in
        let last : 0 + b ≡ b = omega arith in
        rw id (
          rw last at (
            replay_blocks-append exec log (saved_log m s log) b 0 m t
              (λ c hc. add_log_ne b c m log (ground arith)) (rw last (add_log_self b m log))))

    -- One more message is one more call.
    pub saved-replay :
        replay_blocks exec (saved_log m s log) (suc (saved m s).0.block_no) 0 t
        ≡ (replay_blocks exec log (suc s.block_no) 0 t >>= exec (received m) (saved m s).1)
    unfolding append_record
    saved-replay = append-replay ∙ ap (λ o. o >>= exec (received m) (saved m s).1) roll-replay

    -- In a storage file whose block files hold a log, saving a storable message succeeds, and a
    -- scan of all block files after it comes to the scan of the files before it and one more call
    -- of `exec`, whatever that is, on the message as it is read back and under the id that the save
    -- returned, also where the save opens a new block.
    pub saved-scan_blocks :
        (save_message m s ≡ ok (saved m s))
        × (scan_blocks
              (saved m s).0.disk
              exec
              (λ id u. false)
              (suc (saved m s).0.block_no)
              0
              header_size
              t
            ≡ (scan_blocks s.disk exec (λ id u. false) (suc s.block_no) 0 header_size t
                >>= exec (received m) (saved m s).1))
    saved-scan_blocks =
        let h' = saved-Logged in
        let before =
          scan_blocks-records exec s.disk log (suc s.block_no) 0 t
            (λ b lo hi. h.holds b (omega arith)) (λ b lo hi. h.storable b) in
        let behind =
          scan_blocks-records exec (saved m s).0.disk (saved_log m s log)
            (suc (saved m s).0.block_no) 0 t (λ b lo hi. h'.holds b (omega arith))
            (λ b lo hi. h'.storable b) in
        (
          save_message-Logged,
          behind ∙ saved-replay ∙ ap (λ o. o >>= exec (received m) (saved m s).1) (sym before),
        )
