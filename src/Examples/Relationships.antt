-- ===== src/Examples/Relationships.antt =====
-- User 11 has user 12 as a friend, and user 12 has user 11 in the blacklist.
use im_service.Prelude.{
  ℕ, ◌≡◌, refl, sym, ap, Bool, true, false, ◌&&◌, [], ◌∷◌, Option, some, arith, ◌==◌, Bool-cases,
  inl, inr,
}
use im_service.Im.RelationshipPool.Defs.{
  Item, RelationshipPool, RelationshipEvent, blacklist_event, same_pool_key, load,
  pool_relationship, handle_event,
}
use im_service.Im.RelationshipPool.Items.{same_pool_key_eq}
use im_service.Im.RelationshipPool.Coherent.{
  Tables, Coherent, tables_after, handle_event-pool_relationship,
}
use im_service.Im.Relationship.{
  new_relationship, is_my_friend, is_your_friend, is_in_my_blacklist, is_in_your_blacklist, reverse,
  get_relationship, new_relationship_lem, reverse-get_relationship,
}
use mathlib.Core.Option

abbrev friends : ℕ → ℕ → ℕ → Bool
friends appid uid friend_uid = uid == 11 && friend_uid == 12

abbrev blacklisted : ℕ → ℕ → ℕ → Bool
blacklisted appid uid friend_uid = uid == 12 && friend_uid == 11

new_relationship_lem_example :
    (is_my_friend (new_relationship true false false true) ≡ true)
    × (is_your_friend (new_relationship true false false true) ≡ false)
    × (is_in_my_blacklist (new_relationship true false false true) ≡ false)
    × (is_in_your_blacklist (new_relationship true false false true) ≡ true)
new_relationship_lem_example = new_relationship_lem true false false true

reverse-get_relationship_example :
    get_relationship (some friends) (some blacklisted) 7 12 11
    ≡ Option.map reverse (get_relationship (some friends) (some blacklisted) 7 11 12)
reverse-get_relationship_example =
    reverse-get_relationship (some friends) (some blacklisted) 7 11 12

-- The two users are in the pool, and user 12 takes user 11 from the blacklist.
abbrev tables : Tables
tables = record { friend = friends; blacklist = blacklisted }

abbrev cached : Item
cached = record { rs = new_relationship true false false true; ts = 100 }

abbrev pool : RelationshipPool
pool = record {
  items = (record { appid = 7; uid = 11; friend_uid = 12 }, cached) ∷ [];
  item_count = 1;
  dirty = false;
  last_entry_id = 3;
  action_id = 40;
}

pool-Coherent : Coherent tables pool
unfolding load
pool-Coherent k v q =
    elim (Bool-cases (same_pool_key (record { appid = 7; uid = 11; friend_uid = 12 }) k)) [
      | inl e ↦
          let is_v : some cached ≡ some v = rw e at q in
          rw (sym (same_pool_key_eq _ k e))
            (omega arith, ap (λ (w : Option Item). (Option.get_or w cached).rs) (sym is_v))
      | inr e ↦ absurd (cc (rw e at q))
    ]

abbrev forgiven : RelationshipEvent
forgiven = record {
  id = 4;
  action_id = 41;
  previous_action_id = 40;
  name = blacklist_event;
  app_id = 7;
  uid = 12;
  friend_uid = 11;
  is_friend = false;
  is_blacklist = false;
}

handle_event-pool_relationship_example :
    let t = tables_after forgiven blacklist_event tables in
    let r =
      pool_relationship
        (some t.friend)
        (some t.blacklist)
        200
        7
        12
        11
        (handle_event forgiven pool) in
    (r.1
      ≡ new_relationship
          (t.friend 7 12 11)
          (t.friend 7 11 12)
          (t.blacklist 7 12 11)
          (t.blacklist 7 11 12))
    × Coherent t r.0
handle_event-pool_relationship_example =
    handle_event-pool_relationship forgiven tables pool 200 7 12 11 pool-Coherent refl
      (λ e. omega (arith, e))
