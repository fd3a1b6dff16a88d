-- ===== src/Ims/PeerStorage/Queue.antt =====
-- A user's queue as a list, the newest entry first, and what the walks through it find.
use im_service.Prelude.{
  ℕ, zero, suc, ◌+◌, ◌-◌, ◌<◌, ◌≡◌, ◌≢◌, refl, sym, ap, subst, ◌∙◌, Bool, true, false, List, [],
  ◌∷◌, ◌++◌, Option, some, length, take, arith, leb, ◌==◌, if◌then◌else◌, length-append,
  append_assoc, append-nil, Bool-cases, inl, inr,
}
use im_service.Prelude.Bytes.{Bytes}
use im_service.Core.Body.{Message, Nested, OfflineMessage, cmd}
use im_service.Core.Decode.{ok}
use im_service.Core.RoundTrip.Sent.{received}
use im_service.Ims.StorageFile.{StorageFile, get_file, get_block_no}
use im_service.Ims.StorageFile.Stored.{Stored, load_message-Stored, get_file-disk}
use im_service.Ims.Storage.{EMessage, offline_body}
use im_service.Ims.PeerStorage.Defs.{entry_message}
use im_service.Ims.PeerStorage.Loads.{Walk, Loaded, load_entry, note_first, collect, walk}
use im_service.Ims.PeerStorage.Entries.{cmd-received}
use mathlib.Core.Option

-- An entry, whether it has the group flag, and the message that it names.
pub record Item : Type 0 where
  pub entry : OfflineMessage
  pub flagged : Bool
  pub msg : Message

-- The entry `id` and those before it, down to the first, which has id 0 before it.
abbrev pub Queue : (ℕ → Option Bytes) → ℕ → List Item → Type 0
Queue disk id [] = id ≡ 0
Queue disk id (x ∷ xs) =
    (id ≢ 0)
    × Stored disk id (entry_message x.flagged x.entry)
    × Stored disk x.entry.msgid x.msg
    × Queue disk x.entry.prev_msgid xs

-- What a call returns for an item.
abbrev pub as_loaded : Item → EMessage
as_loaded x = record {
  msg_id = x.entry.msgid;
  device_id = x.entry.device_id;
  msg = Nested.ref (received x.msg);
}

-- The messages of a queue that a walk takes, if there is no limit: those of a wanted command, up to
-- the entry where the walk stops.
unfoldable pub kept : Walk → List Item → List EMessage
kept w [] = []
kept w (x ∷ xs) =
    if w.reached x.entry
    then []
    else if w.wanted (cmd x.msg)
    then as_loaded x ∷ kept w xs
    else kept w xs

-- The same for a walk that already has `n` messages and stops when it is full.
unfoldable pub newest : Walk → ℕ → List Item → List EMessage
newest w n [] = []
newest w n (x ∷ xs) =
    if w.reached x.entry
    then []
    else if w.wanted (cmd x.msg)
    then as_loaded x ∷ (if w.full (n + 1) then [] else newest w (n + 1) xs)
    else newest w n xs

pub newest-all :
    (w : Walk) (n : ℕ) (xs : List Item)
    → ((k : ℕ) → w.full (k + 1) ≡ false)
    → newest w n xs ≡ kept w xs
unfolding newest kept
newest-all w n [] h = refl
newest-all w n (x ∷ xs) h = elim (Bool-cases (w.reached x.entry)) [
  | inl e ↦ rw e refl
  | inr e ↦ elim (Bool-cases (w.wanted (cmd x.msg))) [
    | inl t ↦ rw (e, t, h n) (ap (◌∷◌ (as_loaded x)) (newest-all w (n + 1) xs h))
    | inr t ↦ rw (e, t) (newest-all w n xs h)
  ]
]

take_nil {ℓ} : {A : Type ℓ} (n : ℕ) → take {A = A} n [] ≡ []
unfolding take
take_nil zero = refl
take_nil (suc n) = refl

pub newest-take :
    (w : Walk) (limit n : ℕ) (xs : List Item)
    → ((k : ℕ) → w.full (k + 1) ≡ leb limit (k + 1))
    → n < limit
    → newest w n xs ≡ take (limit - n) (kept w xs)
unfolding newest kept take
newest-take w limit n [] h hn = sym (take_nil (limit - n))
newest-take w limit n (x ∷ xs) h hn = elim (Bool-cases (w.reached x.entry)) [
  | inl e ↦ rw e (sym (take_nil (limit - n)))
  | inr e ↦ elim (Bool-cases (w.wanted (cmd x.msg))) [
    | inr t ↦ rw (e, t) (newest-take w limit n xs h hn)
    | inl t ↦
        let more : limit - n ≡ suc (limit - (n + 1)) = omega arith in
        rw (e, t, more, h n)
          (ap (◌∷◌ (as_loaded x)) (elim (Bool-cases (leb limit (n + 1))) [
            | inl full ↦
                let last : limit - (n + 1) ≡ 0 = ground (arith, full) in rw (full, last) refl
            | inr room ↦ rw room (newest-take w limit (n + 1) xs h (ground (arith, room)))
          ]))
  ]
]

abbrev touched : ℕ → StorageFile → StorageFile
touched id f = (get_file (get_block_no id) f).0

load_entry-Stored :
    (id : ℕ) (f : StorageFile) (flagged : Bool) (o : OfflineMessage)
    → Stored f.disk id (entry_message flagged o)
    → load_entry id f ≡ ok (touched id f, some o)
unfolding load_entry entry_message received offline_body Option.bind
load_entry-Stored id f flagged o h = rw (load_message-Stored f id _ h) refl

note_first-messages :
    (id : ℕ) (o : OfflineMessage) (l : Loaded) → (note_first id o l).messages ≡ l.messages
unfolding note_first
note_first-messages id o l = ground arith

module _ (w : Walk) (stops : (id : ℕ) → w.stops id ≡ (id == 0))
    (follows : (n : ℕ) (o : OfflineMessage) → w.following n o ≡ o.prev_msgid) where
  pub walk-Queue :
      (fuel id : ℕ) (l : Loaded) (f : StorageFile) (xs : List Item)
      → Queue f.disk id xs
      → length xs < fuel
      → (f' : StorageFile) × (l' : Loaded) × (walk w fuel id l f ≡ ok (f', l'))
        × (f'.disk ≡ f.disk)
        × (l'.messages ≡ l.messages ++ newest w (length l.messages) xs)
  unfolding walk newest collect note_first
  walk-Queue zero id l f xs h hf = absurd (omega arith)
  walk-Queue (suc fuel) id l f [] h hf =
      let stop : w.stops id ≡ true = stops id ∙ rw h refl in
      (f, l, rw (stop, walk) refl, refl, sym (append-nil l.messages))
  walk-Queue (suc fuel) id l f (x ∷ xs) (nz, he, hm, hq) hf =
      let go_on : w.stops id ≡ false = stops id ∙ ground arith in
      let entry = load_entry-Stored id f x.flagged x.entry he in
      let f' = touched id f in
      let same' = get_file-disk (get_block_no id) f in
      let l' = note_first id x.entry l in
      let kept_so_far = note_first-messages id x.entry l in
      let f'' = touched x.entry.msgid f' in
      let same'' : f''.disk ≡ f.disk = get_file-disk (get_block_no x.entry.msgid) f' ∙ same' in
      let load =
        load_message-Stored f' x.entry.msgid x.msg
          (subst (λ d. Stored d x.entry.msgid x.msg) (sym same') hm) in
      let rest = subst (λ d. Queue d x.entry.prev_msgid xs) (sym same'') hq in
      elim (Bool-cases (w.reached x.entry)) [
        | inl e ↦ (
          f',
          l',
          rw (go_on, entry, e, walk) refl,
          same',
          kept_so_far ∙ rw e (sym (append-nil l.messages)),
        )
        | inr e ↦ elim (Bool-cases (w.wanted (cmd x.msg))) [
          | inr t ↦
              let t' : w.wanted (cmd (received x.msg)) ≡ false = rw (cmd-received x.msg) t in
              let (g, r, runs, same, found) =
                walk-Queue fuel x.entry.prev_msgid l' f'' xs rest (omega arith) in
              (
                g,
                r,
                rw (go_on, entry, e, load, t', follows (length l'.messages) x.entry, walk) runs,
                same ∙ same'',
                rw (e, t) (rw kept_so_far at found),
              )
          | inl t ↦
              let t' : w.wanted (cmd (received x.msg)) ≡ true = rw (cmd-received x.msg) t in
              let taken = collect x.entry (received x.msg) l' in
              let all : taken.messages ≡ l.messages ++ as_loaded x ∷ [] =
                ap (λ ms. ms ++ as_loaded x ∷ []) kept_so_far in
              let count : length taken.messages ≡ length l.messages + 1 =
                omega (arith, ap length all, length-append l.messages (as_loaded x ∷ [])) in
              elim (Bool-cases (w.full (length taken.messages))) [
                | inl full ↦ (
                  f'',
                  taken,
                  rw (go_on, entry, e, load, t', full, walk) refl,
                  same'',
                  rw (e, t, rw count at full) all,
                )
                | inr room ↦
                    let (g, r, runs, same, found) =
                      walk-Queue fuel x.entry.prev_msgid taken f'' xs rest (omega arith) in
                    (
                      g,
                      r,
                      rw
                          (
                            go_on,
                            entry,
                            e,
                            load,
                            t',
                            room,
                            follows (length taken.messages) x.entry,
                            walk,
                          )
                          runs,
                      same ∙ same'',
                      rw (e, t, rw count at room)
                          (found
                            ∙ ap (λ ms. ms ++ newest w (length taken.messages) xs) all
                            ∙ append_assoc l.messages (as_loaded x ∷ [])
                                (newest w (length taken.messages) xs)
                            ∙ ap (λ n. l.messages ++ as_loaded x ∷ newest w n xs) count),
                    )
              ]
        ]
      ]
