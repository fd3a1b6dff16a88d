-- ===== src/Im/GroupMessageDeliver/Send/Servers.antt =====
-- The batches are by storage server: `GetStorageRPCIndex` and the map `batch_members`.
use im_service.Prelude.{
  ℕ, ◌+◌, ◌-◌, ◌%◌, ◌^◌, ◌<◌, ◌≤◌, ◌≡◌, refl, sym, ap, subst, ◌∙◌, inl, inr, List, [], ◌∷◌, ◌++◌,
  some, map, All, ◌==◌, ==_eq, if◌then◌else◌, arith, Option-cases, Bool-cases,
}
use im_service.Prelude.Bytes.{neg64}
use im_service.Prelude.Maps.{Map, value_at, put, delete}
use mathlib.Core.List.{Perm, foldr}
use mathlib.Core.List.Perm
use native.Mathlib.Nat.{ℕ_set, mod-le}
use im_service.Im.GroupMessageDeliver.Send.Defs.{storage_rpc_index, add_batch_member, batch_members}

-- The server of a user, an int64, among `n`: by the absolute value.
abbrev pub server : ℕ → ℕ → ℕ
server n u = (if neg64 u then 2 ^ 64 - u else u) % n

-- How many of these users are not at the server `k`.
unfoldable pub strangers : ℕ → ℕ → List ℕ → ℕ
strangers n k [] = 0
strangers n k (v ∷ vs) = (if server n v == k then 0 else 1) + strangers n k vs

-- How many users of a batch are at another server than the first.
unfoldable pub apart : ℕ → List ℕ → ℕ
apart n [] = 0
apart n (u ∷ us) = strangers n (server n u) us

-- The same in all of several batches.
unfoldable pub apart_in : ℕ → List (List ℕ) → ℕ
apart_in n [] = 0
apart_in n (b ∷ bs) = apart n b + apart_in n bs

-- The absolute value of an int64: at most 2^63, which is the least one's.
abbrev magnitude : ℕ → ℕ
magnitude u = if neg64 u then 2 ^ 64 - u else u

magnitude_le : (u : ℕ) → magnitude u ≤ 2 ^ 63
magnitude_le u = ground arith

-- The index that a magnitude gives is from that user's server alone.
same_rest :
    (a b n : ℕ)
    → a ≤ 2 ^ 63
    → b ≤ 2 ^ 63
    → (if neg64 a then (2 ^ 64 - a % n) % 2 ^ 64 else a % n)
      ≡ (if neg64 b then (2 ^ 64 - b % n) % 2 ^ 64 else b % n)
    → a % n ≡ b % n
same_rest a b n ha hb h =
    let la = mod-le a n in
    let lb = mod-le b n in
    elim (Bool-cases (neg64 a)) [
      | inl e ↦ elim (Bool-cases (neg64 b)) [
        | inl f ↦ let same : a ≡ b = ground (arith, e, f, ha, hb) in ap (λ (x : ℕ). x % n) same
        | inr f ↦
            let g : (2 ^ 64 - a % n) % 2 ^ 64 ≡ b % n = rw (e, f) at h in
            let small : b < 2 ^ 63 = ground (arith, f) in omega (arith, g, la, lb, ha, small)
      ]
      | inr e ↦ elim (Bool-cases (neg64 b)) [
        | inl f ↦
            let g : a % n ≡ (2 ^ 64 - b % n) % 2 ^ 64 = rw (e, f) at h in
            let small : a < 2 ^ 63 = ground (arith, e) in omega (arith, g, la, lb, hb, small)
        | inr f ↦ rw (e, f) at h
      ]
    ]

same_server : (n u v : ℕ) → storage_rpc_index n u ≡ storage_rpc_index n v → server n u ≡ server n v
unfolding storage_rpc_index
same_server n u v h = same_rest (magnitude u) (magnitude v) n (magnitude_le u) (magnitude_le v) h

-- Each batch of the map holds users with its key as their index.
abbrev ByIndex : ℕ → Map (List ℕ) → Type 0
ByIndex n [] = Unit {0}
ByIndex n ((k, b) ∷ m) = All (λ v. storage_rpc_index n v ≡ k) b × ByIndex n m

ByIndex-value_at :
    (n k : ℕ) (m : Map (List ℕ)) (b : List ℕ)
    → ByIndex n m
    → value_at k m ≡ some b
    → All (λ v. storage_rpc_index n v ≡ k) b
unfolding value_at
ByIndex-value_at n k [] b h e = cc
ByIndex-value_at n k ((j, c) ∷ m) b (h, hs) e = elim (Bool-cases (j == k)) [
  | inl f ↦
      let same : c ≡ b = cc (rw f at e) in
      subst (λ l. All (λ v. storage_rpc_index n v ≡ k) l) same
        (subst (λ (i : ℕ). All (λ v. storage_rpc_index n v ≡ i) c) (==_eq j k f) h)
  | inr f ↦ ByIndex-value_at n k m b hs (rw f at e)
]

delete-ByIndex : (n k : ℕ) (m : Map (List ℕ)) → ByIndex n m → ByIndex n (delete k m)
unfolding delete
delete-ByIndex n k [] h = h
delete-ByIndex n k ((j, c) ∷ m) (h, hs) = elim (Bool-cases (j == k)) [
  | inl f ↦ rw f (delete-ByIndex n k m hs)
  | inr f ↦ rw f (h, delete-ByIndex n k m hs)
]

All-last :
    (n k v : ℕ) (b : List ℕ)
    → All (λ u. storage_rpc_index n u ≡ k) b
    → storage_rpc_index n v ≡ k
    → All (λ u. storage_rpc_index n u ≡ k) (b ++ v ∷ [])
All-last n k v [] h e = (e, tt)
All-last n k v (u ∷ b) (h, hs) e = (h, All-last n k v b hs e)

add_batch_member-ByIndex :
    (n v : ℕ) (m : Map (List ℕ))
    → ByIndex n m
    → ByIndex n (add_batch_member (storage_rpc_index n v) v m)
unfolding add_batch_member put
add_batch_member-ByIndex n v m h =
    let k = storage_rpc_index n v in
    elim (Option-cases (value_at k m)) [
      | inl e ↦ rw (e, add_batch_member) ((refl, tt), delete-ByIndex n k m h)
      | inr (b, e) ↦
          rw (e, add_batch_member)
            (All-last n k v b (ByIndex-value_at n k m b h e) refl, delete-ByIndex n k m h)
    ]

batch_members-ByIndex :
    (n : ℕ) (members : List ℕ) (m : Map (List ℕ))
    → ByIndex n m
    → ByIndex n (batch_members n members m)
unfolding batch_members
batch_members-ByIndex n [] m h = h
batch_members-ByIndex n (v ∷ members) m h =
    batch_members-ByIndex n members (add_batch_member (storage_rpc_index n v) v m)
      (add_batch_member-ByIndex n v m h)

strangers_zero :
    (n u : ℕ) (vs : List ℕ)
    → All (λ v. storage_rpc_index n v ≡ storage_rpc_index n u) vs
    → strangers n (server n u) vs ≡ 0
unfolding strangers
strangers_zero n u [] h = refl
strangers_zero n u (v ∷ vs) (h, hs) =
    let e = same_server n v u h in ground (arith, e, strangers_zero n u vs hs)

apart_zero : (n k : ℕ) (b : List ℕ) → All (λ v. storage_rpc_index n v ≡ k) b → apart n b ≡ 0
unfolding apart
apart_zero n k [] h = refl
apart_zero n k (u ∷ us) (h, hs) =
    strangers_zero n u us (subst (λ (i : ℕ). All (λ v. storage_rpc_index n v ≡ i) us) (sym h) hs)

ByIndex-apart_in : (n : ℕ) (m : Map (List ℕ)) → ByIndex n m → apart_in n (map (λ e. e.1) m) ≡ 0
unfolding apart_in
ByIndex-apart_in n [] h = refl
ByIndex-apart_in n ((k, b) ∷ m) (h, hs) = omega (arith, apart_zero n k b h, ByIndex-apart_in n m hs)

apart_in-foldr :
    (n : ℕ) (bs : List (List ℕ))
    → apart_in n bs ≡ foldr (λ (b : List ℕ) (k : ℕ). apart n b + k) 0 bs
unfolding apart_in
apart_in-foldr n [] = refl
apart_in-foldr n (b ∷ bs) = ap (◌+◌ (apart n b)) (apart_in-foldr n bs)

-- Whatever the order of the batches, no batch has users of two servers.
pub batch_members-apart_in :
    (n : ℕ) (members : List ℕ) (bs : List (List ℕ))
    → Perm bs (map (λ e. e.1) (batch_members n members []))
    → apart_in n bs ≡ 0
batch_members-apart_in n members bs p =
    let m = batch_members n members [] in
    apart_in-foldr n bs
    ∙ Perm.foldr-eq ℕ_set (λ b k. apart n b + k) (λ a b x. omega arith) p 0
    ∙ sym (apart_in-foldr n (map (λ e. e.1) m))
    ∙ ByIndex-apart_in n m (batch_members-ByIndex n members [] tt)
