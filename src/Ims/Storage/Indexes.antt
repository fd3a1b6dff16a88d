-- ===== src/Ims/Storage/Indexes.antt =====
-- An index as a map: what a look-up gives after an insertion.
use im_service.Prelude.{
  ◌≡◌, refl, ap, true, false, [], ◌∷◌, some, arith, if◌then◌else◌, Bool-cases, ==_refl, inl, inr,
}
use im_service.Ims.Storage.Defs.{Key, same_key, Index, lookup, insert}

same_key_refl : (k : Key) → same_key k k ≡ true
unfolding same_key
same_key_refl k = rw (==_refl k.appid, ==_refl k.id) refl

same_key_trans : (i j k : Key) → same_key i k ≡ true → same_key k j ≡ false → same_key i j ≡ false
unfolding same_key
same_key_trans i j k h n = ground arith

module _ {ℓ} {V : Type ℓ} (k : Key) (v : V) where
  pub lookup-insert : (m : Index V) → lookup k (insert k v m) ≡ some v
  unfolding lookup insert
  lookup-insert [] = rw (same_key_refl k) refl
  lookup-insert ((j, w) ∷ m) = elim (Bool-cases (same_key j k)) [
    | inl e ↦ rw e (rw (same_key_refl k) refl)
    | inr e ↦ rw e (rw e (lookup-insert m))
  ]

  pub lookup-insert_ne :
      (j : Key) (m : Index V) → same_key k j ≡ false → lookup j (insert k v m) ≡ lookup j m
  unfolding lookup insert
  lookup-insert_ne j [] h = rw h refl
  lookup-insert_ne j ((i, w) ∷ m) h = elim (Bool-cases (same_key i k)) [
    | inl e ↦ rw e (rw (h, same_key_trans i j k e h) refl)
    | inr e ↦ rw e (ap (λ r. if same_key i j then some w else r) (lookup-insert_ne j m h))
  ]
