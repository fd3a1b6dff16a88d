-- ===== src/Im/RelationshipPool/Twice.antt =====
-- A second question to the pool has the answer of the first.
use im_service.Prelude.{
  ℕ, ◌+◌, ◌≡◌, sym, ap, ◌∙◌, inl, inr, true, Option, none, some, if◌then◌else◌, arith, Option-cases,
  ltb,
}
use im_service.Im.Relationship.{get_relationship}
use im_service.Im.RelationshipPool.{
  RelationshipPool, Rows, pool_relationship, ordered_key, load, store, as_seen, PoolKey, Item,
  same_pool_key, none_relationship,
}
use im_service.Im.RelationshipPool.Defs.{Items}
use im_service.Im.RelationshipPool.Items.{load-store}

load-store_self : (k : PoolKey) (v : Item) (m : Items) → load k (store k v m) ≡ some v
load-store_self k v m =
    let e : same_pool_key k k ≡ true = unfold same_pool_key in ground arith in
    load-store k k v m ∙ ap (λ b. if b then some v else load k m) e

module _ (friend blacklist : Option Rows) (now appid uid friend_uid : ℕ) where
  abbrev pub answer : RelationshipPool → RelationshipPool × ℕ
  answer = pool_relationship friend blacklist now appid uid friend_uid

  abbrev key : PoolKey
  key = ordered_key appid uid friend_uid

  abbrev stored_pool : ℕ → ℕ → RelationshipPool → RelationshipPool
  stored_pool rs n p = record p {
    items = store key (record { rs = rs; ts = now }) p.items;
    item_count = n;
  }

  answer-hit :
      (p : RelationshipPool) (r : Item)
      → load key p.items ≡ some r
      → answer p ≡ (stored_pool r.rs p.item_count p, as_seen (ltb friend_uid uid) r.rs)
  unfolding pool_relationship
  answer-hit p r e = rw (e, pool_relationship)

  abbrev read_tables : Option ℕ
  read_tables = get_relationship friend blacklist key.appid key.uid key.friend_uid

  answer-unread :
      (p : RelationshipPool)
      → load key p.items ≡ none
      → read_tables ≡ none
      → answer p ≡ (p, none_relationship)
  unfolding pool_relationship
  answer-unread p e f = rw (e, f, pool_relationship)

  answer-miss :
      (p : RelationshipPool) (rs : ℕ)
      → load key p.items ≡ none
      → read_tables ≡ some rs
      → answer p ≡ (stored_pool rs (p.item_count + 1) p, as_seen (ltb friend_uid uid) rs)
  unfolding pool_relationship
  answer-miss p rs e f = rw (e, f, pool_relationship)

  again_stored :
      (p : RelationshipPool) (rs n : ℕ)
      → answer p ≡ (stored_pool rs n p, as_seen (ltb friend_uid uid) rs)
      → (answer (answer p).0).1 ≡ (answer p).1
  again_stored p rs n q =
      ap (λ x. (answer x.0).1) q
      ∙ ap (λ x. x.1)
          (answer-hit (stored_pool rs n p) (record { rs = rs; ts = now })
            (load-store_self key (record { rs = rs; ts = now }) p.items))
      ∙ sym (ap (λ x. x.1) q)

  -- A second question has the answer of the first.
  pub ask_again : (p : RelationshipPool) → (answer (answer p).0).1 ≡ (answer p).1
  ask_again p = elim (Option-cases (load key p.items)) [
    | inr (r, e) ↦ again_stored p r.rs p.item_count (answer-hit p r e)
    | inl e ↦ elim (Option-cases read_tables) [
      | inr (rs, f) ↦ again_stored p rs (p.item_count + 1) (answer-miss p rs e f)
      | inl f ↦ let q = answer-unread p e f in ap (λ x. (answer x.0).1) q
    ]
  ]
