-- ===== src/Ims/PeerStorage/IndexFile/Defs.antt =====
-- `savePeerIndex` and `readPeerIndex`.
use im_service.Prelude.{
  ℕ, zero, suc, ◌+◌, ◌*◌, ◌/◌, ◌%◌, Bool, true, false, [], ◌∷◌, ◌++◌, Option, none, some, length,
  take, drop, ◌==◌, if◌then◌else◌,
}
use im_service.Prelude.Bytes.{Bytes, write_be, read_be}
use im_service.Ims.Storage.{Key, Index, UserIndex, Storage}
use im_service.Ims.PeerStorage.Defs.{set_peer_index}

abbrev pub index_size : ℕ
index_size = 56

-- What is written of an entry, in front of `rest`.
unfoldable pub index_entry : Key × UserIndex → Bytes → Bytes
index_entry (k, ui) rest =
    write_be 8 k.appid
    ++ (write_be 8 k.id
        ++ (write_be 8 ui.last_msgid
            ++ (write_be 8 ui.last_id
                ++ (write_be 8 ui.last_peer_id
                    ++ (write_be 8 ui.last_batch_id ++ (write_be 8 ui.last_seq_id ++ rest))))))

-- The loop of `savePeerIndex`: the buffer goes to the file at each 1000th entry, and at the end.
unfoldable pub save_loop : ℕ → Bytes → Bytes → Index UserIndex → Bytes
save_loop index buffer file [] = file ++ buffer
save_loop index buffer file (e ∷ es) =
    let buffer' = buffer ++ index_entry e [] in
    if (index + 1) % 1000 == 0
    then save_loop (index + 1) [] (file ++ buffer') es
    else save_loop (index + 1) buffer' file es

unfoldable pub save_peer_index : Index UserIndex → Bytes
unfolding save_loop
save_peer_index m = save_loop 0 [] [] m

-- An entry that was read is set.
unfoldable pub read_entry : Bytes → Storage → Storage × Bytes
read_entry b s =
    let (appid, b1) = read_be 8 0 b in
    let (uid, b2) = read_be 8 0 b1 in
    let (last_msgid, b3) = read_be 8 0 b2 in
    let (last_id, b4) = read_be 8 0 b3 in
    let (peer_msgid, b5) = read_be 8 0 b4 in
    let (batch_id, b6) = read_be 8 0 b5 in
    let (seq_id, b7) = read_be 8 0 b6 in
    (
      set_peer_index appid uid
          (record {
            last_msgid = last_msgid;
            last_id = last_id;
            last_peer_id = peer_msgid;
            last_batch_id = batch_id;
            last_seq_id = seq_id;
          })
          s,
      b7,
    )

unfoldable pub read_entries : ℕ → Bytes → Storage → Storage
read_entries zero b s = s
read_entries (suc n) b s = let (s', b') = read_entry b s in read_entries n b' s'

-- The reads of at most 1000 entries, of which the last may end in half an entry. `fuel` bounds them.
unfoldable pub read_chunks : ℕ → Bytes → Storage → Storage
read_chunks zero b s = s
read_chunks (suc fuel) b s =
    let data_bytes = take (index_size * 1000) b in
    let rest =
      read_chunks fuel (drop (index_size * 1000) b)
        (read_entries (length data_bytes / index_size) data_bytes s) in
    if length b == 0 then s else rest

-- `readPeerIndex`, on the file if there is one.
unfoldable pub read_peer_index : Option Bytes → Storage → Storage × Bool
unfolding read_chunks
read_peer_index none s = (s, false)
read_peer_index (some b) s = (read_chunks (length b) b s, true)
