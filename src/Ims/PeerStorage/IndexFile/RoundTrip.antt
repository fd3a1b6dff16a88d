-- ===== src/Ims/PeerStorage/IndexFile/RoundTrip.antt =====
-- What `savePeerIndex` writes, `readPeerIndex` reads.
use im_service.Prelude.{
  ℕ, zero, suc, ◌+◌, ◌*◌, ◌/◌, ◌%◌, ◌^◌, ◌≤◌, ◌<◌, ◌≡◌, refl, sym, ap, ◌∙◌, true, List, [], ◌∷◌,
  ◌++◌, Option, none, some, All, arith, length, take, drop, take-append, drop-append, length-drop,
  ltb, ◌==◌, append_assoc, append-nil, ==_eq, Bool-cases, inl, inr,
}
use im_service.Prelude.Bytes.{Bytes, read8, lengths}
use im_service.Ims.Storage.{Key, Index, UserIndex, Storage, insert, lookup, same_key}
use im_service.Ims.Storage.Indexes.{lookup-insert, lookup-insert_ne}
use im_service.Ims.PeerStorage.Defs.{set_peer_index}
use im_service.Ims.PeerStorage.IndexFile.Defs.{
  index_size, index_entry, save_loop, save_peer_index, read_entry, read_entries, read_chunks,
  read_peer_index,
}

-- The entries, one after the other.
unfoldable pub entries : Index UserIndex → Bytes
entries [] = []
entries (e ∷ es) = index_entry e (entries es)

unfoldable pub set_all : Index UserIndex → Storage → Storage
set_all [] s = s
set_all ((k, ui) ∷ es) s = set_all es (set_peer_index k.appid k.id ui s)

abbrev pub IsEntry : Key × UserIndex → Type 0
IsEntry (k, ui) =
    (k.appid < 2 ^ 64)
    × (k.id < 2 ^ 64)
    × (ui.last_msgid < 2 ^ 64)
    × (ui.last_id < 2 ^ 64)
    × (ui.last_peer_id < 2 ^ 64)
    × (ui.last_batch_id < 2 ^ 64)
    × (ui.last_seq_id < 2 ^ 64)

index_entry-append :
    (e : Key × UserIndex) (rest : Bytes) → index_entry e [] ++ rest ≡ index_entry e rest
unfolding index_entry
index_entry-append (k, ui) rest = simp (append_assoc, append-nil)

save_loop-entries :
    (i : ℕ) (b f : Bytes) (m : Index UserIndex) → save_loop i b f m ≡ f ++ (b ++ entries m)
unfolding save_loop entries
save_loop-entries i b f [] = ap (◌++◌ f) (sym (append-nil b))
save_loop-entries i b f (e ∷ es) =
    let one =
      append_assoc b (index_entry e []) (entries es)
      ∙ ap (◌++◌ b) (index_entry-append e (entries es)) in
    elim (Bool-cases ((i + 1) % 1000 == 0)) [
      | inl t ↦ rw t (
          save_loop-entries (i + 1) [] (f ++ (b ++ index_entry e [])) es
          ∙ append_assoc f (b ++ index_entry e []) (entries es)
          ∙ ap (◌++◌ f) one)
      | inr t ↦ rw t (save_loop-entries (i + 1) (b ++ index_entry e []) f es ∙ ap (◌++◌ f) one)
    ]

read_entry-index_entry :
    (k : Key) (ui : UserIndex) (rest : Bytes) (s : Storage)
    → IsEntry (k, ui)
    → read_entry (index_entry (k, ui) rest) s ≡ (set_peer_index k.appid k.id ui s, rest)
unfolding read_entry index_entry
read_entry-index_entry k ui rest s (h1, h2, h3, h4, h5, h6, h7) = simp (
  read8 k.appid 0 h1,
  read8 k.id 0 h2,
  read8 ui.last_msgid 0 h3,
  read8 ui.last_id 0 h4,
  read8 ui.last_peer_id 0 h5,
  read8 ui.last_batch_id 0 h6,
  read8 ui.last_seq_id 0 h7,
)

length-index_entry :
    (e : Key × UserIndex) (rest : Bytes) → length (index_entry e rest) ≡ 56 + length rest
unfolding index_entry
length-index_entry (k, ui) rest = omega lengths

length-entries : (m : Index UserIndex) → length (entries m) ≡ 56 * length m
unfolding entries
length-entries [] = omega arith
length-entries (e ∷ es) = omega (arith, length-index_entry e (entries es), length-entries es)

entries-append : (m n : Index UserIndex) → entries (m ++ n) ≡ entries m ++ entries n
unfolding entries
entries-append [] n = refl
entries-append (e ∷ es) n =
    sym (index_entry-append e (entries (es ++ n)))
    ∙ ap (◌++◌ (index_entry e [])) (entries-append es n)
    ∙ sym (append_assoc (index_entry e []) (entries es) (entries n))
    ∙ ap (λ b. b ++ entries n) (index_entry-append e (entries es))

read_entries-entries :
    (m : Index UserIndex) (s : Storage)
    → All IsEntry m
    → read_entries (length m) (entries m) s ≡ set_all m s
unfolding read_entries entries set_all
read_entries-entries [] s h = refl
read_entries-entries ((k, ui) ∷ es) s (h, hs) =
    rw (read_entry-index_entry k ui (entries es) s h, read_entries)
      (read_entries-entries es (set_peer_index k.appid k.id ui s) hs)

set_all-append :
    (m n : Index UserIndex) (s : Storage) → set_all (m ++ n) s ≡ set_all n (set_all m s)
unfolding set_all
set_all-append [] n s = refl
set_all-append ((k, ui) ∷ m) n s = set_all-append m n (set_peer_index k.appid k.id ui s)

module _ {A : Type 0} where
  take_all : (n : ℕ) (xs : List A) → length xs ≤ n → take n xs ≡ xs
  unfolding take
  take_all zero [] h = refl
  take_all zero (x ∷ xs) h = absurd (omega arith)
  take_all (suc n) [] h = refl
  take_all (suc n) (x ∷ xs) h = ap (◌∷◌ x) (take_all n xs (omega arith))

  drop_all : (n : ℕ) (xs : List A) → length xs ≤ n → drop n xs ≡ []
  unfolding drop
  drop_all zero [] h = refl
  drop_all zero (x ∷ xs) h = absurd (omega arith)
  drop_all (suc n) [] h = refl
  drop_all (suc n) (x ∷ xs) h = drop_all n xs (omega arith)

  length-take : (n : ℕ) (xs : List A) → n ≤ length xs → length (take n xs) ≡ n
  unfolding take
  length-take zero xs h = refl
  length-take (suc n) [] h = absurd (omega arith)
  length-take (suc n) (x ∷ xs) h = omega (arith, length-take n xs (omega arith))

take-drop : (n : ℕ) (m : Index UserIndex) → take n m ++ drop n m ≡ m
unfolding take drop
take-drop zero m = refl
take-drop (suc n) [] = refl
take-drop (suc n) (e ∷ m) = ap (◌∷◌ e) (take-drop n m)

All-take :
    (n : ℕ) (m : Index UserIndex) → All IsEntry m → All IsEntry (take n m) × All IsEntry (drop n m)
unfolding take drop
All-take zero m h = (tt, h)
All-take (suc n) [] h = (tt, tt)
All-take (suc n) (e ∷ m) (h, hs) = let (a, b) = All-take n m hs in ((h, a), b)

no_entries : (m : Index UserIndex) → length (entries m) ≡ 0 → m ≡ []
no_entries [] h = refl
no_entries (e ∷ m) h = absurd (omega (arith, length-entries (e ∷ m), h))

-- The first read gives the first 1000 entries, or all.
chunk :
    (m : Index UserIndex)
    → (take (index_size * 1000) (entries m) ≡ entries (take 1000 m))
      × (drop (index_size * 1000) (entries m) ≡ entries (drop 1000 m))
unfolding entries
chunk m =
    let a = take 1000 m in
    let b = drop 1000 m in
    let len = length-entries m in
    elim (Bool-cases (ltb (length m) 1000)) [
      | inl e ↦
          let l : length m ≤ 1000 = ground (arith, e) in
          let l' : length (entries m) ≤ index_size * 1000 = omega (arith, len, l) in
          rw (take_all 1000 m l, drop_all 1000 m l)
            (
              take_all (index_size * 1000) (entries m) l',
              drop_all (index_size * 1000) (entries m) l',
            )
      | inr e ↦
          let full : length a ≡ 1000 = length-take 1000 m (ground (arith, e)) in
          let la : length (entries a) ≡ index_size * 1000 = omega (arith, length-entries a, full) in
          let split : entries m ≡ entries a ++ entries b =
            ap entries (sym (take-drop 1000 m)) ∙ entries-append a b in
          (
            ap (take (index_size * 1000)) split
                ∙ take-append (entries a) (entries b) (index_size * 1000) la,
            ap (drop (index_size * 1000)) split
                ∙ drop-append (entries a) (entries b) (index_size * 1000) la,
          )
    ]

read_chunks-entries :
    (fuel : ℕ) (m : Index UserIndex) (s : Storage)
    → All IsEntry m
    → length (entries m) ≤ fuel
    → read_chunks fuel (entries m) s ≡ set_all m s
unfolding read_chunks set_all
read_chunks-entries zero m s h l = rw (no_entries m (omega (arith, l))) refl
read_chunks-entries (suc fuel) m s h l =
    let a = take 1000 m in
    let b = drop 1000 m in
    let (ha, hb) = All-take 1000 m h in
    let (front, back) = chunk m in
    let count : length (entries a) / index_size ≡ length a = omega (arith, length-entries a) in
    elim (Bool-cases (length (entries m) == 0)) [
      | inl e ↦ rw e (ap (λ w. set_all w s) (sym (no_entries m (ground (arith, e)))))
      | inr e ↦
          let less : length (entries b) ≤ fuel =
            ground (arith, e, l, length-drop (index_size * 1000) (entries m), ap length back) in
          rw (e, front, back, count, read_entries-entries a s ha)
            (read_chunks-entries fuel b (set_all a s) hb less
              ∙ sym (set_all-append a b s)
              ∙ ap (λ w. set_all w s) (take-drop 1000 m))
    ]

-- Each key stands once.
abbrev pub IsIndex : Index UserIndex → Type 0
IsIndex [] = Unit {0}
IsIndex ((k, ui) ∷ m) = (lookup k m ≡ none) × IsIndex m

or_else : Option UserIndex → Option UserIndex → Option UserIndex
or_else none o = o
or_else (some ui) o = some ui

same_key_eq : (k j : Key) → same_key k j ≡ true → k ≡ j
unfolding same_key
same_key_eq k j e =
    let ea : k.appid ≡ j.appid = ==_eq k.appid j.appid (ground arith) in
    let ei : k.id ≡ j.id = ==_eq k.id j.id (ground arith) in
    ap (λ (a : ℕ). record { appid = a; id = k.id }) ea
    ∙ ap (λ (i : ℕ). record { appid = j.appid; id = i }) ei

or_else-none : (o : Option UserIndex) → or_else o none ≡ o
unfolding or_else
or_else-none none = refl
or_else-none (some ui) = refl

lookup-set_all :
    (j : Key) (m : Index UserIndex) (s : Storage)
    → IsIndex m
    → lookup j (set_all m s).peer_index ≡ or_else (lookup j m) (lookup j s.peer_index)
unfolding set_all lookup or_else set_peer_index
lookup-set_all j [] s h = refl
lookup-set_all j ((k, ui) ∷ m) s (h, hs) =
    lookup-set_all j m (set_peer_index k.appid k.id ui s) hs ∙ elim (Bool-cases (same_key k j)) [
      | inl e ↦
          let q = same_key_eq k j e in
          let gone : lookup j m ≡ none = ap (λ i. lookup i m) (sym q) ∙ h in
          let found : lookup j (insert k ui s.peer_index) ≡ some ui =
            ap (λ i. lookup i (insert k ui s.peer_index)) (sym q)
            ∙ lookup-insert k ui s.peer_index in
          rw (e, gone, found) refl
      | inr e ↦ rw (e, lookup-insert_ne k ui j s.peer_index e) refl
    ]

-- What `savePeerIndex` writes of an index, whose integers fit an int64 and whose keys differ, is
-- read by `readPeerIndex` of a storage without an index: it returns true, and then each key has the
-- entry that it has in the index, or none if it has none there.
pub read_peer_index-save_peer_index :
    (m : Index UserIndex) (s : Storage)
    → All IsEntry m
    → IsIndex m
    → s.peer_index ≡ []
    → ((read_peer_index (some (save_peer_index m)) s).1 ≡ true)
      × ((j : Key)
          → lookup j (read_peer_index (some (save_peer_index m)) s).0.peer_index ≡ lookup j m)
unfolding read_peer_index save_peer_index lookup
read_peer_index-save_peer_index m s h i e =
    let all =
      ap (λ b. read_chunks (length b) b s) (save_loop-entries 0 [] [] m)
      ∙ read_chunks-entries (length (entries m)) m s h (omega arith) in
    (
      refl,
      λ j.
          ap (λ (t : Storage). lookup j t.peer_index) all
          ∙ lookup-set_all j m s i
          ∙ ap (λ w. or_else (lookup j m) (lookup j w)) e
          ∙ or_else-none (lookup j m),
    )
