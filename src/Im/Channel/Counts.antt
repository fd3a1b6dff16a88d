-- ===== src/Im/Channel/Counts.antt =====
-- The connections that a channel stands for, and the counts that it keeps of them.
use im_service.Prelude.{
  ℕ, ◌+◌, ◌-◌, ◌*◌, ◌%◌, ◌^◌, ◌≤◌, ◌<◌, ◌≡◌, refl, sym, ap, ◌∙◌, Bool, true, ◌&&◌, List, [], ◌∷◌,
  Option, none, some, arith, ltb, ◌==◌, if◌then◌else◌, ==_eq, Bool-cases, Option-cases, inl, inr,
}
use im_service.Prelude.Maps.{value_at, put, delete, value_at-put, value_at-delete}
use im_service.Prelude.Bits.{bit_or_sum}
use im_service.Im.Channel.Defs.{
  Subscriber, Channel, total_of, online_of, pack, subscriber_of, set_subscriber, add_subscribe,
  remove_uid, remove_subscribe, minus_one,
}
use mathlib.Core.Option

-- A connection of a user, and whether it is online.
pub record Connection : Type 0 where
  pub appid : ℕ
  pub uid : ℕ
  pub online : Bool

abbrev pub is_of : ℕ → ℕ → Connection → Bool
is_of appid uid x = x.appid == appid && x.uid == uid

abbrev pub one_if : Bool → ℕ
one_if b = if b then 1 else 0

-- How many of the connections are the user's, and how many of these are online.
abbrev pub total : ℕ → ℕ → List Connection → ℕ
total appid uid [] = 0
total appid uid (x ∷ xs) = one_if (is_of appid uid x) + total appid uid xs

abbrev pub online : ℕ → ℕ → List Connection → ℕ
online appid uid [] = 0
online appid uid (x ∷ xs) = one_if (is_of appid uid x && x.online) + online appid uid xs

pub online-le-total :
    (appid uid : ℕ) (xs : List Connection) → online appid uid xs ≤ total appid uid xs
online-le-total appid uid [] = omega arith
online-le-total appid uid (x ∷ xs) = ground (arith, online-le-total appid uid xs)

-- `xs'` is `xs` without one `x`.
pub data Removes (x : Connection) : List Connection → List Connection → Type 0 where
  here : {xs : List Connection} → Removes x (x ∷ xs) xs
  there :
      {xs xs' : List Connection} (y : Connection) → Removes x xs xs' → Removes x (y ∷ xs) (y ∷ xs')

pub Removes-total :
    (appid uid : ℕ) {x : Connection} {xs xs' : List Connection}
    → Removes x xs xs'
    → total appid uid xs ≡ one_if (is_of appid uid x) + total appid uid xs'
Removes-total appid uid here = refl
Removes-total appid uid (there y r) = omega (arith, Removes-total appid uid r)

pub Removes-online :
    (appid uid : ℕ) {x : Connection} {xs xs' : List Connection}
    → Removes x xs xs'
    → online appid uid xs ≡ one_if (is_of appid uid x && x.online) + online appid uid xs'
Removes-online appid uid here = refl
Removes-online appid uid (there y r) = omega (arith, Removes-online appid uid r)

abbrev pub uid_of : ℕ → Option Subscriber → Option ℕ
uid_of uid none = none
uid_of uid (some s) = value_at uid s.uids

-- The channel's count of a user.
unfoldable pub entry : ℕ → ℕ → Channel → Option ℕ
entry appid uid c = uid_of uid (value_at appid c.subscribers)

-- The entry of a user with `n` connections, `m` of them online.
abbrev pub counted : ℕ → ℕ → Option ℕ
counted n m = if n == 0 then none else some (m * 2 ^ 16 + n)

pub pack-counted : (m n : ℕ) → m < 2 ^ 16 → n < 2 ^ 16 → pack m n ≡ m * 2 ^ 16 + n
unfolding pack
pack-counted m n hm hn =
    let e : m * 2 ^ 16 % 2 ^ 64 ≡ m * 2 ^ 16 = omega arith in rw e (bit_or_sum 16 m n hn)

pub entry-set_subscriber :
    (appid a u : ℕ) (s : Subscriber) (c : Channel)
    → entry a u (set_subscriber appid s c) ≡ (if appid == a then value_at u s.uids else entry a u c)
unfolding entry set_subscriber
entry-set_subscriber appid a u s c =
    ap (uid_of u) (value_at-put appid a s c.subscribers) ∙ ground arith

pub value_at-subscriber_of :
    (appid u : ℕ) (c : Channel) → value_at u (subscriber_of appid c).uids ≡ entry appid u c
unfolding subscriber_of entry value_at
value_at-subscriber_of appid u c = ground arith

-- A change of one user's entry in a subscriber whose entries are the channel's.
module _ (appid uid a u : ℕ) (s : Subscriber) (c : Channel)
    (h : value_at u s.uids ≡ entry appid u c) where
  old_entry : appid == a ≡ true → value_at u s.uids ≡ entry a u c
  old_entry e = h ∙ ap (λ (i : ℕ). entry i u c) (==_eq appid a e)

  pub entry-put :
      (v : ℕ)
      → entry a u (set_subscriber appid (record s { uids = put uid v s.uids }) c)
        ≡ (if appid == a && uid == u then some v else entry a u c)
  entry-put v =
      entry-set_subscriber appid a u (record s { uids = put uid v s.uids }) c
      ∙ elim (Bool-cases (appid == a)) [
        | inl e ↦
            rw e
              (value_at-put uid u v s.uids ∙ ap (λ r. if uid == u then some v else r) (old_entry e))
        | inr e ↦ rw e refl
      ]

  pub entry-delete :
      entry a u (set_subscriber appid (record s { uids = delete uid s.uids }) c)
      ≡ (if appid == a && uid == u then none else entry a u c)
  entry-delete =
      entry-set_subscriber appid a u (record s { uids = delete uid s.uids }) c
      ∙ elim (Bool-cases (appid == a)) [
        | inl e ↦
            rw e
              (value_at-delete uid u s.uids ∙ ap (λ r. if uid == u then none else r) (old_entry e))
        | inr e ↦ rw e refl
      ]

-- `AddSubscribe` as a change of one entry.
pub entry-add_subscribe :
    (appid uid a u : ℕ) (on : Bool) (c : Channel)
    → let count = Option.get_or (entry appid uid c) 0 in
      ((add_subscribe appid uid on c).1 ≡ total_of count)
      × ((add_subscribe appid uid on c).2 ≡ online_of count)
      × (entry a u (add_subscribe appid uid on c).0 ≡ (
          if appid == a && uid == u
          then some
              (pack (if on then online_of count + 1 else online_of count) (total_of count + 1))
          else entry a u c))
unfolding add_subscribe
entry-add_subscribe appid uid a u on c =
    let s = subscriber_of appid c in
    rw (value_at-subscriber_of appid uid c)
      (refl, refl, entry-put appid uid a u s c (value_at-subscriber_of appid u c) _)

entry-remove_uid :
    (appid uid a u count : ℕ) (on : Bool) (s : Subscriber) (c : Channel)
    → value_at u s.uids ≡ entry appid u c
    → entry a u (set_subscriber appid (remove_uid uid on count s) c) ≡ (
        if appid == a && uid == u
        then if ltb 0 (total_of count - 1)
          then some (
              pack
                (if on then minus_one (online_of count) else online_of count)
                (total_of count - 1))
          else none
        else entry a u c)
unfolding remove_uid
entry-remove_uid appid uid a u count on s c h = elim (Bool-cases (ltb 0 (total_of count - 1))) [
  | inl t ↦ rw t (entry-put appid uid a u s c h _)
  | inr t ↦ rw t (entry-delete appid uid a u s c h)
]

-- `RemoveSubscribe` as a change of one entry, which is there.
pub entry-remove_subscribe :
    (appid uid a u count : ℕ) (on : Bool) (c : Channel)
    → entry appid uid c ≡ some count
    → ((remove_subscribe appid uid on c).1 ≡ total_of count)
      × ((remove_subscribe appid uid on c).2 ≡ online_of count)
      × (entry a u (remove_subscribe appid uid on c).0 ≡ (
          if appid == a && uid == u
          then if ltb 0 (total_of count - 1)
            then some (
                pack
                  (if on then minus_one (online_of count) else online_of count)
                  (total_of count - 1))
            else none
          else entry a u c))
unfolding entry remove_subscribe
entry-remove_subscribe appid uid a u count on c h =
    elim (Option-cases (value_at appid c.subscribers)) [
      | inl e ↦ absurd (cc (rw e at h))
      | inr (s, e) ↦
          let here : value_at uid s.uids ≡ some count = rw e at h in
          rw (e, here, remove_subscribe)
            (refl, refl, entry-remove_uid appid uid a u count on s c (sym (ap (uid_of u) e)))
    ]
