-- ===== src/Core/RoundTrip/Counted.antt =====
-- Lists of user ids behind their count, and the pending group message that holds one.
use im_service.Prelude.{
  ℕ, ◌+◌, ◌*◌, ◌%◌, ◌^◌, ◌≤◌, ◌≡◌, refl, ap, ◌∙◌, List, [], ◌∷◌, ◌++◌, arith, length, drop, le→ltb,
  lt→leb, le→leb, All, drop-append, append-nil, append_assoc,
}
use im_service.Prelude.Bytes.{
  Bytes, write_be, read8, read4, read2, length-write_be-append, drop-write_be, lengths,
}
use im_service.Core.Body.{PendingGroupMessage}
use im_service.Core.RoundTrip.Fields.{IsInt64, IsInt32}
use im_service.Core.Encode.{write_uids, write_pending_group}
use im_service.Core.Decode.{panic, ok, read_uids, read_pending_group}

-- A list of integers is read back, and what follows it is left.
pub read_uids-write :
    (us : List ℕ) (rest : Bytes)
    → All IsInt64 us
    → read_uids (length us) (write_uids us ++ rest) ≡ (us, rest)
unfolding read_uids write_uids
read_uids-write [] rest h = refl
read_uids-write (u ∷ us) rest (hu, hus) =
    simp
      (append_assoc (write_be 8 u) (write_uids us) rest, read8 u 0 hu, read_uids-write us rest hus)

pub length-write_uids :
    (us : List ℕ) (rest : Bytes) → length (write_uids us ++ rest) ≡ length us * 8 + length rest
unfolding write_uids
length-write_uids [] rest = omega arith
length-write_uids (u ∷ us) rest =
    ap length (append_assoc (write_be 8 u) (write_uids us) rest)
    ∙ omega (arith, length-write_be-append 8 u (write_uids us ++ rest), length-write_uids us rest)

drop-write_uids :
    (us : List ℕ) (rest : Bytes) (n : ℕ) → length us * 8 ≡ n → drop n (write_uids us ++ rest) ≡ rest
unfolding write_uids drop
drop-write_uids us rest n h =
    drop-append (write_uids us) rest n
      (omega (arith, length-write_uids us [], ap length (append-nil (write_uids us))))

-- At most 4091 members: `38+count*8` fits an int16.
pub record IsPendingGroup (g : PendingGroupMessage) : Type 0 where
  pub appid : IsInt64 g.appid
  pub sender : IsInt64 g.sender
  pub device_id : IsInt64 g.device_id
  pub gid : IsInt64 g.gid
  pub timestamp : IsInt32 g.timestamp
  pub members : All IsInt64 g.members
  pub count : length g.members ≤ 4091

-- The bytes of a message, `count` being what is written for the number of its members.
abbrev pending_bytes : PendingGroupMessage → ℕ → Bytes
pending_bytes g count =
    write_be 8 g.appid
    ++ (write_be 8 g.sender
        ++ (write_be 8 g.device_id
            ++ (write_be 8 g.gid
                ++ (write_be 4 g.timestamp
                    ++ (write_be 2 count ++ (write_uids g.members ++ g.content))))))

drop_pending :
    (g : PendingGroupMessage) (count n : ℕ)
    → n ≡ 38 + length g.members * 8
    → drop n (pending_bytes g count) ≡ g.content
drop_pending g count n h =
    drop-write_be 8 g.appid (30 + k) n _ (omega arith)
    ∙ drop-write_be 8 g.sender (22 + k) (30 + k) _ (omega arith)
    ∙ drop-write_be 8 g.device_id (14 + k) (22 + k) _ (omega arith)
    ∙ drop-write_be 8 g.gid (6 + k) (14 + k) _ (omega arith)
    ∙ drop-write_be 4 g.timestamp (2 + k) (6 + k) _ (omega arith)
    ∙ drop-write_be 2 count k (2 + k) _ (omega arith)
    ∙ drop-write_uids g.members g.content k refl
  where
    k : ℕ
    k = length g.members * 8

length-pending :
    (g : PendingGroupMessage) (count : ℕ)
    → length (pending_bytes g count) ≡ 38 + length g.members * 8 + length g.content
length-pending g count = omega (lengths, length-write_uids g.members g.content)

-- A pending group message of at most 4091 members, whose integers fit their types, is decoded as it
-- was encoded: with that many members the offset of the content fits the int16 in which it is
-- computed.
pub read_pending_group-write :
    (g : PendingGroupMessage) → IsPendingGroup g → read_pending_group (write_pending_group g) ≡ ok g
unfolding read_pending_group write_pending_group
read_pending_group-write g h =
    let n = length g.members in
    let fits : n % 2 ^ 16 ≡ n = omega (arith, h.count) in
    let offset : (38 + n * 8) % 2 ^ 16 ≡ 38 + n * 8 = omega (arith, h.count) in
    simp (
      le→ltb (length (pending_bytes g n)) 38 (omega (arith, length-pending g n)),
      le→ltb (length (pending_bytes g n)) (38 + n * 8) (omega (arith, length-pending g n)),
      drop_pending g n (38 + n * 8) refl,
      fits,
      offset,
      lt→leb 0x8000 n (omega (arith, h.count)),
      lt→leb 0x8000 (38 + n * 8) (omega (arith, h.count)),
      read8 g.appid 0 h.appid,
      read8 g.sender 0 h.sender,
      read8 g.device_id 0 h.device_id,
      read8 g.gid 0 h.gid,
      read4 g.timestamp 0 h.timestamp,
      read2 n 0 (omega (arith, h.count)),
      read_uids-write g.members g.content h.members,
    )

-- The encoding of a pending group message of 4092 to 8187 members, whose integers fit their types,
-- panics its decoder: the offset of the content has wrapped around to a negative int16.
pub read_pending_group-write_panic :
    (g : PendingGroupMessage)
    → IsInt64 g.appid
    → IsInt64 g.sender
    → IsInt64 g.device_id
    → IsInt64 g.gid
    → IsInt32 g.timestamp
    → 4092 ≤ length g.members
    → length g.members ≤ 8187
    → read_pending_group (write_pending_group g) ≡ panic
unfolding read_pending_group write_pending_group
read_pending_group-write_panic g ha hs hd hg ht from to =
    let n = length g.members in
    let fits : n % 2 ^ 16 ≡ n = omega arith in
    let offset : (38 + n * 8) % 2 ^ 16 ≡ 38 + n * 8 = omega arith in
    simp (
      le→ltb (length (pending_bytes g n)) 38 (omega (arith, length-pending g n)),
      fits,
      offset,
      lt→leb 0x8000 n (omega arith),
      le→leb 0x8000 (38 + n * 8) (omega arith),
      read8 g.appid 0 ha,
      read8 g.sender 0 hs,
      read8 g.device_id 0 hd,
      read8 g.gid 0 hg,
      read4 g.timestamp 0 ht,
      read2 n 0 (omega arith),
    )
