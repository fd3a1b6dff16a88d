-- ===== src/Im/RelationshipPool/Coherent.antt =====
-- The pool against the tables of im/relationship.go: after an event the items say what the tables say.
use im_service.Prelude.{
  ℕ, ◌≤◌, ◌≡◌, ◌≢◌, refl, sym, ap, ◌∙◌, Bool, true, false, ◌&&◌, Option, some, arith, ltb, ◌==◌,
  if◌then◌else◌, Bool-cases, Option-cases, ==_refl, inl, inr,
}
use im_service.Im.Relationship.{
  new_relationship, get_relationship, new_relationship_lem, reverse-new_relationship,
}
use im_service.Im.RelationshipPool.Defs.{
  PoolKey, Item, Items, same_pool_key, load, store, RelationshipPool, Rows, ordered_key, as_seen,
  pool_relationship, change, with_my_friend, with_your_friend, with_in_my_blacklist,
  with_in_your_blacklist, set_my_friend, set_in_my_blacklist, EventName, friend_event,
  blacklist_event, unknown_event, RelationshipEvent, is_invalid, handle_friend, handle_blacklist,
  dispatch, handle_event,
}
use im_service.Im.RelationshipPool.Items.{same_pool_key_eq, load-store}
use mathlib.Core.Option

-- The rows of the tables of friends and of the blacklist.
pub record Tables : Type 0 where
  pub friend : Rows
  pub blacklist : Rows

abbrev pub told : Tables → ℕ → ℕ → ℕ → ℕ
told t a u f =
    new_relationship (t.friend a u f) (t.friend a f u) (t.blacklist a u f) (t.blacklist a f u)

-- The items are of uids in order, and say what the tables say.
abbrev pub Coherent : Tables → RelationshipPool → Type 0
Coherent t p =
    (k : PoolKey) (v : Item)
    → load k p.items ≡ some v
    → (k.uid ≤ k.friend_uid) × (v.rs ≡ told t k.appid k.uid k.friend_uid)

-- The rows with one that is there or is not.
unfoldable pub with_row : ℕ → ℕ → ℕ → Bool → Rows → Rows
with_row appid uid friend_uid b rows a u f =
    if appid == a && (uid == u && friend_uid == f) then b else rows a u f

change-Coherent :
    (t t' : Tables) (k : PoolKey) (f : ℕ → ℕ) (p : RelationshipPool)
    → f (told t k.appid k.uid k.friend_uid) ≡ told t' k.appid k.uid k.friend_uid
    → ((j : PoolKey)
        → j.uid ≤ j.friend_uid
        → same_pool_key k j ≡ false
        → told t' j.appid j.uid j.friend_uid ≡ told t j.appid j.uid j.friend_uid)
    → Coherent t p
    → Coherent t' (change k f p)
unfolding change
change-Coherent t t' k f p here there h = elim (Option-cases (load k p.items)) [
  | inl e ↦
      rw (e, change)
        (λ j v q. elim (Bool-cases (same_pool_key k j)) [
          | inl s ↦ absurd (cc (e, q, same_pool_key_eq k j s))
          | inr s ↦ let (o, is) = h j v q in (o, is ∙ sym (there j o s))
        ])
  | inr (r, e) ↦
      rw (e, change)
        (λ j v q. elim (Bool-cases (same_pool_key k j)) [
          | inl s ↦
              let new : Item = record r { rs = f r.rs } in
              let is_new : some new ≡ some v = sym (load-store k j new p.items ∙ rw s refl) ∙ q in
              let (o, is) = h k r e in
              rw (sym (same_pool_key_eq k j s)) (
                o,
                ap (λ (w : Option Item). (Option.get_or w new).rs) (sym is_new) ∙ ap f is ∙ here,
              )
          | inr s ↦
              let (o, is) = h j v (sym (load-store k j _ p.items ∙ rw s refl) ∙ q) in
              (o, is ∙ sym (there j o s))
        ])
]

-- A change of one flag of what the tables say.
with_flags :
    (a b c d x : Bool)
    → (with_my_friend x (new_relationship a b c d) ≡ new_relationship x b c d)
      × (with_your_friend x (new_relationship a b c d) ≡ new_relationship a x c d)
      × (with_in_my_blacklist x (new_relationship a b c d) ≡ new_relationship a b x d)
      × (with_in_your_blacklist x (new_relationship a b c d) ≡ new_relationship a b c x)
with_flags a b c d x =
    let (ha, hb, hc, hd) = new_relationship_lem a b c d in
    (rw (hb, hc, hd) refl, rw (ha, hc, hd) refl, rw (ha, hb, hd) refl, rw (ha, hb, hc) refl)

module _ (a u f : ℕ) (b : Bool) (rows : Rows) (ne : u ≢ f) where
  row_here : with_row a u f b rows a u f ≡ b
  unfolding with_row
  row_here = rw (==_refl a, ==_refl u, ==_refl f) refl

  row_back : with_row a u f b rows a f u ≡ rows a f u
  unfolding with_row
  row_back = ground (arith, ne)

  rows_there :
      (j : PoolKey)
      → j.uid ≤ j.friend_uid
      → same_pool_key (ordered_key a u f) j ≡ false
      → (with_row a u f b rows j.appid j.uid j.friend_uid ≡ rows j.appid j.uid j.friend_uid)
        × (with_row a u f b rows j.appid j.friend_uid j.uid ≡ rows j.appid j.friend_uid j.uid)
  unfolding with_row same_pool_key ordered_key
  rows_there j o s = (ground (arith, ne, s, o), ground (arith, ne, s, o))

module _ (a u f : ℕ) (b : Bool) (t : Tables) (p : RelationshipPool) (ne : u ≢ f)
    (h : Coherent t p) where
  abbrev key : PoolKey
  key = ordered_key a u f

  abbrev befriended : Tables
  befriended = record t { friend = with_row a u f b t.friend }

  abbrev blocked : Tables
  blocked = record t { blacklist = with_row a u f b t.blacklist }

  friend_here :
      (if ltb f u then with_your_friend b else with_my_friend b)
        (told t key.appid key.uid key.friend_uid)
      ≡ told befriended key.appid key.uid key.friend_uid
  unfolding ordered_key
  friend_here =
      let here = row_here a u f b t.friend ne in
      let back = row_back a u f b t.friend ne in
      elim (Bool-cases (ltb f u)) [
        | inl w ↦ rw (w, ordered_key) (rw (here, back) (with_flags _ _ _ _ b).1)
        | inr w ↦ rw (w, ordered_key) (rw (here, back) (with_flags _ _ _ _ b).0)
      ]

  blocked_here :
      (if ltb f u then with_in_your_blacklist b else with_in_my_blacklist b)
        (told t key.appid key.uid key.friend_uid)
      ≡ told blocked key.appid key.uid key.friend_uid
  unfolding ordered_key
  blocked_here =
      let here = row_here a u f b t.blacklist ne in
      let back = row_back a u f b t.blacklist ne in
      elim (Bool-cases (ltb f u)) [
        | inl w ↦ rw (w, ordered_key) (rw (here, back) (with_flags _ _ _ _ b).3)
        | inr w ↦ rw (w, ordered_key) (rw (here, back) (with_flags _ _ _ _ b).2)
      ]

  set_my_friend-Coherent : Coherent befriended (set_my_friend a u f b p)
  unfolding set_my_friend
  set_my_friend-Coherent =
      change-Coherent t befriended key _ p friend_here
        (λ j o s. let (x, y) = rows_there a u f b t.friend ne j o s in rw (x, y) refl) h

  set_in_my_blacklist-Coherent : Coherent blocked (set_in_my_blacklist a u f b p)
  unfolding set_in_my_blacklist
  set_in_my_blacklist-Coherent =
      change-Coherent t blocked key _ p blocked_here
        (λ j o s. let (x, y) = rows_there a u f b t.blacklist ne j o s in rw (x, y) refl) h

-- The tables after the row of an event is there or is not.
abbrev pub tables_after : RelationshipEvent → EventName → Tables → Tables
tables_after e friend_event t = record t {
  friend = with_row e.app_id e.uid e.friend_uid e.is_friend t.friend;
}
tables_after e blacklist_event t = record t {
  blacklist = with_row e.app_id e.uid e.friend_uid e.is_blacklist t.blacklist;
}
tables_after e unknown_event t = t

module _ (e : RelationshipEvent) (valid : is_invalid e ≡ false) (ne : e.uid ≢ e.friend_uid) where
  dispatch-Coherent :
      (n : EventName) (t : Tables) (p : RelationshipPool)
      → Coherent t p
      → Coherent (tables_after e n t) (dispatch n e p)
  unfolding handle_friend handle_blacklist
  dispatch-Coherent friend_event t p h =
      rw valid (set_my_friend-Coherent e.app_id e.uid e.friend_uid e.is_friend t p ne h)
  dispatch-Coherent blacklist_event t p h =
      rw valid (set_in_my_blacklist-Coherent e.app_id e.uid e.friend_uid e.is_blacklist t p ne h)
  dispatch-Coherent unknown_event t p h = h

  pub handle_event-Coherent :
      (t : Tables) (p : RelationshipPool)
      → Coherent t p
      → Coherent (tables_after e e.name t) (handle_event e p)
  unfolding handle_event
  handle_event-Coherent t p h = elim (Bool-cases (p.action_id == e.previous_action_id)) [
    | inl s ↦ rw s (dispatch-Coherent e.name t p h)
    | inr s ↦ rw s (dispatch-Coherent e.name t (record p { dirty = true }) h)
  ]

store-Coherent :
    (t : Tables) (k : PoolKey) (new : Item) (m : Items) (p : RelationshipPool)
    → p.items ≡ m
    → k.uid ≤ k.friend_uid
    → new.rs ≡ told t k.appid k.uid k.friend_uid
    → Coherent t p
    → (j : PoolKey) (v : Item) → load j (store k new m) ≡ some v
    → (j.uid ≤ j.friend_uid) × (v.rs ≡ told t j.appid j.uid j.friend_uid)
store-Coherent t k new m p same o is h j v q = elim (Bool-cases (same_pool_key k j)) [
  | inl s ↦
      let is_new : some new ≡ some v = sym (load-store k j new m ∙ rw s refl) ∙ q in
      rw (sym (same_pool_key_eq k j s))
        (o, ap (λ (w : Option Item). (Option.get_or w new).rs) (sym is_new) ∙ is)
  | inr s ↦ h j v (ap (load j) same ∙ sym (load-store k j new m ∙ rw s refl) ∙ q)
]

key_in_order : (a u f : ℕ) → (ordered_key a u f).uid ≤ (ordered_key a u f).friend_uid
unfolding ordered_key
key_in_order a u f = ground arith

-- What the users in order are to each other, as the first of the two sees it.
as_seen-told :
    (t : Tables) (a u f : ℕ)
    → let k = ordered_key a u f in
      as_seen (ltb f u) (told t k.appid k.uid k.friend_uid) ≡ told t a u f
unfolding ordered_key
as_seen-told t a u f = elim (Bool-cases (ltb f u)) [
  | inl w ↦ rw (w, ordered_key) (reverse-new_relationship _ _ _ _)
  | inr w ↦ rw (w, ordered_key) refl
]

-- What the pool answers, and that it is as true behind the call.
pool_relationship-Coherent :
    (t : Tables) (now appid uid friend_uid : ℕ) (p : RelationshipPool)
    → Coherent t p
    → ((pool_relationship (some t.friend) (some t.blacklist) now appid uid friend_uid p).1
        ≡ told t appid uid friend_uid)
      × Coherent t
          (pool_relationship (some t.friend) (some t.blacklist) now appid uid friend_uid p).0
unfolding pool_relationship get_relationship
pool_relationship-Coherent t now appid uid friend_uid p h =
    let k = ordered_key appid uid friend_uid in
    let seen = as_seen-told t appid uid friend_uid in
    let o = key_in_order appid uid friend_uid in
    elim (Option-cases (load k p.items)) [
      | inl e ↦
          rw (e, pool_relationship)
            (
              seen,
              store-Coherent t k (record { rs = told t k.appid k.uid k.friend_uid; ts = now })
                  p.items p refl o refl h,
            )
      | inr (r, e) ↦
          let is = (h k r e).1 in
          rw (e, pool_relationship)
            (
              ap (as_seen (ltb friend_uid uid)) is ∙ seen,
              store-Coherent t k (record r { ts = now }) p.items p refl o is h,
            )
    ]

-- Take a pool whose items have their uids in order and say what two tables say. After `handleEvent`
-- of an event of two different users whose ids and appid are not 0, `GetRelationship` of the pool
-- gives for any two users, in either order and whether they are in the pool or not, the
-- relationship that the tables say once the row of the event is there or is not, and after it the
-- items again have their uids in order and say what those tables say.
pub handle_event-pool_relationship :
    (e : RelationshipEvent) (t : Tables) (p : RelationshipPool) (now appid uid friend_uid : ℕ)
    → Coherent t p
    → is_invalid e ≡ false
    → e.uid ≢ e.friend_uid
    → let t' = tables_after e e.name t in
      let r =
        pool_relationship
          (some t'.friend)
          (some t'.blacklist)
          now
          appid
          uid
          friend_uid
          (handle_event e p) in
      (r.1
        ≡ new_relationship
            (t'.friend appid uid friend_uid)
            (t'.friend appid friend_uid uid)
            (t'.blacklist appid uid friend_uid)
            (t'.blacklist appid friend_uid uid))
      × Coherent t' r.0
handle_event-pool_relationship e t p now appid uid friend_uid h valid ne =
    pool_relationship-Coherent (tables_after e e.name t) now appid uid friend_uid (handle_event e p)
      (handle_event-Coherent e valid ne t p h)
