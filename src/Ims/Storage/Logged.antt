-- ===== src/Ims/Storage/Logged.antt =====
-- A storage file whose blocks hold a log of messages, and how a save extends the log.
use im_service.Prelude.{
  ℕ, ◌+◌, ◌≤◌, ◌<◌, ◌≡◌, ◌≢◌, refl, sym, ap, ◌∙◌, true, false, List, [], ◌∷◌, ◌++◌, Option, none,
  some, All, length, arith, ◌==◌, if◌then◌else◌, length-append, append_assoc, append-nil,
  Bool-cases, inl, inr,
}
use im_service.Prelude.Bytes.{Bytes}
use im_service.Core.Body.{Message}
use im_service.Core.Decode.{ok}
use im_service.Ims.StorageFile.{
  StorageFile, block_size, file_header, record_bytes, fits, roll, append_record, open_write_file,
  new_storage_file, last_block, lru_size,
}
use im_service.Ims.StorageFile.Stored.{
  IsStorable, Ready, length-file_header, contents-some, put_file_self, put_file_ne,
  open_write_file-fresh, open_write_file-block_no,
}
use im_service.Lru.{new_cache}
use native.Mathlib.Decide.{ℕ_discrete}
use im_service.Ims.Storage.Log.{records, records-append}

pub record Logged (s : StorageFile) (log : ℕ → List Message) : Type 0 where
  pub holds : (b : ℕ) → b < s.block_no + 1 → s.disk b ≡ some (file_header ++ records (log b))
  pub fresh : (b : ℕ) → s.block_no < b → s.disk b ≡ none
  pub empty : (b : ℕ) → s.block_no < b → log b ≡ []
  pub storable : (b : ℕ) → All IsStorable (log b)
  pub size : length (file_header ++ records (log s.block_no)) ≤ block_size

-- The log with one message more in a block.
unfoldable pub add_log : ℕ → Message → (ℕ → List Message) → ℕ → List Message
add_log b m log c = if c == b then log c ++ m ∷ [] else log c

pub Logged-Ready : {s : StorageFile} {log : ℕ → List Message} → Logged s log → Ready s
Logged-Ready {s} {log} h = record {
  bytes = file_header ++ records (log s.block_no);
  present = h.holds s.block_no (omega arith);
  header = omega (arith, length-append file_header (records (log s.block_no)), length-file_header);
  size = h.size;
  fresh = h.fresh;
}

All-append {ℓ} :
    {A : Type ℓ} (P : A → Type 0) (xs : List A) (x : A) → All P xs → P x → All P (xs ++ x ∷ [])
All-append P [] x h hx = (hx, tt)
All-append P (y ∷ ys) x (hy, hs) hx = (hy, All-append P ys x hs hx)

pub add_log_self :
    (b : ℕ) (m : Message) (log : ℕ → List Message) → add_log b m log b ≡ log b ++ m ∷ []
unfolding add_log
add_log_self b m log = ground arith

pub add_log_ne :
    (b c : ℕ) (m : Message) (log : ℕ → List Message) → c ≢ b → add_log b m log c ≡ log c
unfolding add_log
add_log_ne b c m log h = ground arith

-- The next block is opened: it is logged as empty.
open_next-Logged :
    (s : StorageFile) (log : ℕ → List Message)
    → Logged s log
    → Logged (open_write_file (s.block_no + 1) s) log
unfolding records
open_next-Logged s log h =
    let b = s.block_no + 1 in
    let e = open_write_file-fresh b s (h.fresh b (omega arith)) in
    let n = open_write_file-block_no b s in
    let none_yet = h.empty b (omega arith) in
    record {
      holds = λ c hc. elim (ℕ_discrete c b) [
        | yes same ↦
            rw (e, same, none_yet)
              (put_file_self s.disk b file_header ∙ ap some (sym (append-nil file_header)))
        | no other ↦ rw e (put_file_ne s.disk b c file_header other ∙ h.holds c (omega (arith, n)))
      ];
      fresh = λ c hc.
          rw e
            (put_file_ne s.disk b c file_header (ground (arith, n)) ∙ h.fresh c (omega (arith, n)));
      empty = λ c hc. h.empty c (omega (arith, n));
      storable = h.storable;
      size = rw (n, none_yet) (omega (arith, length-append file_header [], length-file_header));
    }

module _ (m : Message) (s : StorageFile) (log : ℕ → List Message) (h : Logged s log)
    (hm : IsStorable m) where
  pub roll-Logged : Logged (roll m s) log
  unfolding roll
  roll-Logged = elim (Bool-cases (fits m s)) [
    | inl e ↦ rw e h
    | inr e ↦ rw e (open_next-Logged s log h)
  ]

  pub append-Logged : fits m s ≡ true → Logged (append_record m s).0 (add_log s.block_no m log)
  unfolding append_record fits
  append-Logged e =
      let b = s.block_no in
      let here =
        contents-some s.disk b (file_header ++ records (log b)) (h.holds b (omega arith)) in
      let grown : (file_header ++ records (log b)) ++ record_bytes m
          ≡ file_header ++ records (add_log b m log b) =
        append_assoc file_header (records (log b)) (record_bytes m)
        ∙ ap (◌++◌ file_header) (sym (records-append (log b) m))
        ∙ ap (λ l. file_header ++ records l) (sym (add_log_self b m log)) in
      let len = length-append (file_header ++ records (log b)) (record_bytes m) in
      record {
        holds = λ c hc. elim (ℕ_discrete c b) [
          | yes same ↦ rw (same, here) (put_file_self s.disk b _ ∙ ap some grown)
          | no other ↦
              put_file_ne s.disk b c _ other
              ∙ h.holds c hc
              ∙ ap (λ l. some (file_header ++ records l)) (sym (add_log_ne b c m log other))
        ];
        fresh = λ c hc. put_file_ne s.disk b c _ (ground arith) ∙ h.fresh c hc;
        empty = λ c hc. add_log_ne b c m log (ground arith) ∙ h.empty c hc;
        storable = λ c. elim (ℕ_discrete c b) [
          | yes same ↦
              rw (same, add_log_self b m log) (All-append IsStorable (log b) m (h.storable b) hm)
          | no other ↦ rw (add_log_ne b c m log other) (h.storable c)
        ];
        size = ground (arith, here, len, e, ap length grown);
      }

-- What `NewStorageFile` starts from.
abbrev pub blank : (ℕ → Option Bytes) → StorageFile
blank disk = record {
  disk = disk;
  dirty = false;
  block_no = 0;
  files = new_cache lru_size;
  last_id = 0;
  last_saved_id = 0;
  ewt = [];
}

-- A storage file that is made in an empty directory starts at block 0 and holds no message.
pub new_storage_file-Logged :
    (disk : ℕ → Option Bytes)
    → ((b : ℕ) → disk b ≡ none)
    → (new_storage_file [] disk ≡ ok (open_write_file 0 (blank disk)))
      × Logged (open_write_file 0 (blank disk)) (λ b. [])
unfolding new_storage_file last_block open_write_file records
new_storage_file-Logged disk none_there =
    let fresh = open_write_file-fresh 0 (blank disk) (none_there 0) in
    (
      refl,
      record {
        holds = λ b hb. elim (ℕ_discrete b 0) [
          | yes same ↦
              rw (fresh, same)
                (put_file_self disk 0 file_header ∙ ap some (sym (append-nil file_header)))
          | no other ↦ absurd (omega (arith, other))
        ];
        fresh = λ b hb. rw fresh (put_file_ne disk 0 b file_header (ground arith) ∙ none_there b);
        empty = λ b hb. refl;
        storable = λ b. tt;
        size = omega (arith, length-append file_header [], length-file_header);
      },
    )
