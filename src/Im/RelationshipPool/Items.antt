-- ===== src/Im/RelationshipPool/Items.antt =====
-- The items of the pool as a map.
use im_service.Prelude.{
  ℕ, ◌≡◌, refl, ap, ◌∙◌, true, false, [], ◌∷◌, some, arith, if◌then◌else◌, Bool-cases, ==_eq, inl,
  inr,
}
use im_service.Im.RelationshipPool.Defs.{PoolKey, Item, Items, same_pool_key, load, unload, store}

pub same_pool_key_eq : (k j : PoolKey) → same_pool_key k j ≡ true → k ≡ j
unfolding same_pool_key
same_pool_key_eq k j e =
    let ea : k.appid ≡ j.appid = ==_eq k.appid j.appid (ground arith) in
    let eu : k.uid ≡ j.uid = ==_eq k.uid j.uid (ground arith) in
    let ef : k.friend_uid ≡ j.friend_uid = ==_eq k.friend_uid j.friend_uid (ground arith) in
    ap (λ (i : ℕ). record { appid = i; uid = k.uid; friend_uid = k.friend_uid }) ea
    ∙ ap (λ (i : ℕ). record { appid = j.appid; uid = i; friend_uid = k.friend_uid }) eu
    ∙ ap (λ (i : ℕ). record { appid = j.appid; uid = j.uid; friend_uid = i }) ef

load-unload :
    (k j : PoolKey) (m : Items) → same_pool_key k j ≡ false → load j (unload k m) ≡ load j m
unfolding load unload
load-unload k j [] h = refl
load-unload k j ((i, v) ∷ m) h = elim (Bool-cases (same_pool_key i k)) [
  | inl e ↦
      let n : same_pool_key i j ≡ false =
        ap (λ c. same_pool_key c j) (same_pool_key_eq i k e) ∙ h in
      rw (e, n) (load-unload k j m h)
  | inr e ↦ rw e (ap (λ r. if same_pool_key i j then some v else r) (load-unload k j m h))
]

pub load-store :
    (k j : PoolKey) (v : Item) (m : Items)
    → load j (store k v m) ≡ (if same_pool_key k j then some v else load j m)
unfolding load store
load-store k j v m = elim (Bool-cases (same_pool_key k j)) [
  | inl e ↦ rw e refl
  | inr e ↦ rw e (load-unload k j m e)
]
