-- ===== src/Ims/Storage/Log.antt =====
-- The block files as logs of messages: what a scan meets, and what a save adds.
use im_service.Prelude.{
  ℕ, zero, suc, ◌+◌, ◌-◌, ◌*◌, ◌<◌, ◌≤◌, ◌≡◌, refl, sym, ap, fun_ext, ◌∙◌, false, List, [], ◌∷◌,
  ◌++◌, Option, some, All, length, arith, length-append, drop-append, append_assoc, append-nil,
}
use im_service.Prelude.Bytes.{Bytes}
use im_service.Core.Body.{Message}
use im_service.Core.Decode.{Outcome, ok, refused, panic, stuck, ◌>>=◌}
use im_service.Core.RoundTrip.Sent.{received}
use im_service.Ims.StorageFile.{
  block_size, header_size, file_header, record_bytes, read_message, or_nil,
}
use im_service.Ims.StorageFile.Stored.{
  IsStorable, read_message-record, length-record_bytes, length-file_header,
}
use im_service.Ims.Storage.Defs.{scan_file, scan_blocks}

-- The bytes behind the header of a file with these messages.
unfoldable pub records : List Message → Bytes
records [] = []
records (m ∷ ms) = record_bytes m ++ records ms

pub records-append :
    (ms : List Message) (m : Message) → records (ms ++ m ∷ []) ≡ records ms ++ record_bytes m
unfolding records
records-append [] m = append-nil (record_bytes m)
records-append (n ∷ ms) m =
    ap (◌++◌ (record_bytes n)) (records-append ms m)
    ∙ sym (append_assoc (record_bytes n) (records ms) (record_bytes m))

bind-cong {ℓ κ} :
    {A : Type ℓ} {B : Type κ} (o : Outcome A) (f g : A → Outcome B)
    → ((a : A) → f a ≡ g a)
    → (o >>= f) ≡ (o >>= g)
bind-cong o f g h = ap (λ k. o >>= k) (fun_ext h)

pub bind_assoc {ℓ κ μ} :
    {A : Type ℓ} {B : Type κ} {C : Type μ} (o : Outcome A) (f : A → Outcome B) (g : B → Outcome C)
    → (o >>= f >>= g) ≡ (o >>= λ a. f a >>= g)
bind_assoc (ok a) f g = refl
bind_assoc refused f g = refl
bind_assoc panic f g = refl
bind_assoc stuck f g = refl

bind_ok {ℓ} : {A : Type ℓ} (o : Outcome A) → (o >>= λ a. ok a) ≡ o
bind_ok (ok a) = refl
bind_ok refused = refl
bind_ok panic = refl
bind_ok stuck = refl

module _ {ℓ} {S : Type ℓ} (exec : Message → ℕ → S → Outcome S) where
  -- `exec` on each message of a block, from the offset `position` on, as it is read back.
  unfoldable pub replay_file : ℕ → ℕ → List Message → S → Outcome S
  replay_file block position [] s = ok s
  replay_file block position (m ∷ ms) s =
      exec (received m) (block * block_size + position) s
      >>= replay_file block (position + length (record_bytes m)) ms

  unfoldable pub replay_blocks : (ℕ → List Message) → ℕ → ℕ → S → Outcome S
  replay_blocks log zero block s = ok s
  replay_blocks log (suc count) block s =
      replay_file block header_size (log block) s >>= replay_blocks log count (block + 1)

  scan_file-step :
      (fuel block position : ℕ) (bytes rest : Bytes) (m : Message) (s : S)
      → read_message bytes ≡ ok (m, rest)
      → scan_file exec (λ id t. false) (suc fuel) block position bytes s ≡ (
          exec m (block * block_size + position) s >>= λ s'.
          scan_file exec
            (λ id t. false)
            fuel
            block
            (position + (length bytes - length rest))
            rest
            s')
  unfolding scan_file or_nil
  scan_file-step fuel block position bytes rest m s e =
      let e' : or_nil (read_message bytes) ≡ ok (some (m, rest)) = ap or_nil e in rw (e', scan_file)

  -- A scan of a file reads its messages to the last.
  scan_file-records :
      (fuel block position : ℕ) (ms : List Message) (s : S)
      → All IsStorable ms
      → length (records ms) < fuel
      → scan_file exec (λ id t. false) fuel block position (records ms) s
        ≡ replay_file block position ms s
  unfolding records replay_file
  scan_file-records zero block position ms s h hf = absurd (omega arith)
  scan_file-records (suc fuel) block position [] s h hf =
      unfold scan_file or_nil read_message in refl
  scan_file-records (suc fuel) block position (m ∷ ms) s (hm, hs) hf =
      let one = length-append (record_bytes m) (records ms) in
      let step : length (record_bytes m ++ records ms) - length (records ms)
          ≡ length (record_bytes m) =
        omega (arith, one) in
      scan_file-step fuel block position (record_bytes m ++ records ms) (records ms) (received m) s
        (read_message-record m (records ms) hm)
      ∙ rw step (
          bind-cong (exec (received m) (block * block_size + position) s) _ _ λ s'.
            scan_file-records fuel block (position + length (record_bytes m)) ms s' hs
              (omega (arith, one, length-record_bytes m (records ms))))

  -- If each of `count` blocks from `block` on holds its header and the records of its log of
  -- storable messages, then the scan of these blocks calls `exec` on the messages of the logs as
  -- they are read back, in order, under the ids at which they are stored, whatever `exec` is; the
  -- fuel is enough.
  pub scan_blocks-records :
      (disk : ℕ → Option Bytes) (log : ℕ → List Message) (count block : ℕ) (s : S)
      → ((b : ℕ) → block ≤ b → b < block + count → disk b ≡ some (file_header ++ records (log b)))
      → ((b : ℕ) → block ≤ b → b < block + count → All IsStorable (log b))
      → scan_blocks disk exec (λ id t. false) count block header_size s
        ≡ replay_blocks log count block s
  unfolding replay_blocks scan_blocks
  scan_blocks-records disk log zero block s hd hs = refl
  scan_blocks-records disk log (suc count) block s hd hs =
      rw (hd block (omega arith) (omega arith), scan_blocks)
        (rw (drop-append file_header (records (log block)) 32 length-file_header) (
          rw
            (scan_file-records (suc (length (file_header ++ records (log block)))) block header_size
              (log block) s (hs block (omega arith) (omega arith))
              (omega (arith, length-append file_header (records (log block)))))
            (bind-cong (replay_file block header_size (log block) s) _ _ λ s'.
              scan_blocks-records disk log count (block + 1) s'
                (λ b lo hi. hd b (omega arith) (omega arith))
                (λ b lo hi. hs b (omega arith) (omega arith)))))

  replay_file-append :
      (block position : ℕ) (ms : List Message) (m : Message) (s : S)
      → replay_file block position (ms ++ m ∷ []) s ≡ (
          replay_file block position ms s
          >>= exec (received m) (block * block_size + (position + length (records ms))))
  unfolding replay_file records
  replay_file-append block position [] m s =
      bind_ok (exec (received m) (block * block_size + position) s)
      ∙ ap (λ (t : ℕ). exec (received m) (block * block_size + t) s) (omega arith)
  replay_file-append block position (n ∷ ms) m s =
      let next = position + length (record_bytes n) in
      bind-cong (exec (received n) (block * block_size + position) s) _ _ (λ x.
        replay_file-append block next ms m x
        ∙ ap (λ (t : ℕ). replay_file block next ms x >>= exec (received m) (block * block_size + t))
            (omega (arith, length-append (record_bytes n) (records ms))))
      ∙ sym (bind_assoc (exec (received n) (block * block_size + position) s) _ _)

  -- One message more at the end of the last block is one call more.
  pub replay_blocks-append :
      (log log' : ℕ → List Message) (count block : ℕ) (m : Message) (s : S)
      → ((b : ℕ) → b < block + count → log' b ≡ log b)
      → log' (block + count) ≡ log (block + count) ++ m ∷ []
      → replay_blocks log' (suc count) block s ≡ (
          replay_blocks log (suc count) block s
          >>= exec (received m) (
              (block + count) * block_size
              + (header_size + length (records (log (block + count))))))
  unfolding replay_blocks
  replay_blocks-append log log' zero block m s same more =
      let here : block + 0 ≡ block = omega arith in
      rw here (
        bind_ok (replay_file block header_size (log' block) s)
        ∙ ap (λ l. replay_file block header_size l s) (rw here at more)
        ∙ replay_file-append block header_size (log block) m s
        ∙ ap
            (λ o.
              o
              >>= exec (received m)
                  (block * block_size + (header_size + length (records (log block)))))
            (sym (bind_ok (replay_file block header_size (log block) s))))
  replay_blocks-append log log' (suc count) block m s same more =
      let e : block + 1 + count ≡ block + suc count = omega arith in
      rw (same block (omega arith)) (
        bind-cong (replay_file block header_size (log block) s) _ _ (λ x. rw e at (
          replay_blocks-append log log' count (block + 1) m x (λ b hb. same b (omega arith))
            (rw e more)))
        ∙ sym (bind_assoc (replay_file block header_size (log block) s) _ _))

  -- A block with no message adds nothing.
  pub replay_blocks-empty :
      (log : ℕ → List Message) (count block : ℕ) (s : S)
      → log (block + count) ≡ []
      → replay_blocks log (suc count) block s ≡ replay_blocks log count block s
  unfolding replay_blocks replay_file
  replay_blocks-empty log zero block s h =
      let here : block + 0 ≡ block = omega arith in rw (rw here at h) refl
  replay_blocks-empty log (suc count) block s h =
      let e : block + 1 + count ≡ block + suc count = omega arith in
      bind-cong (replay_file block header_size (log block) s) _ _
        λ x. replay_blocks-empty log count (block + 1) x (rw e h)
