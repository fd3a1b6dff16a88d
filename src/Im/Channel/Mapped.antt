-- ===== src/Im/Channel/Mapped.antt =====
-- The maps of a channel hold each key once, whatever is called.
use im_service.Prelude.{
  ℕ, ◌-◌, Bool, true, false, [], ◌∷◌, arith, ltb, ◌==◌, if◌then◌else◌, Bool-cases, Option-cases,
  inl, inr,
}
use im_service.Prelude.Maps.{Map, IsMap, value_at, put, delete, put-IsMap, delete-IsMap}
use im_service.Core.Body.{Body}
use im_service.Im.Channel.Defs.{
  Subscriber, Channel, new_subscriber, total_of, subscriber_of, set_subscriber, add_subscribe,
  remove_uid, remove_subscribe, write, subscribe, unsubscribe,
}
use mathlib.Core.Option

abbrev pub AllMaps : Map Subscriber → Type 0
AllMaps [] = Unit
AllMaps ((appid, s) ∷ subs) = IsMap s.uids × AllMaps subs

abbrev pub Mapped : Map Subscriber → Type 0
Mapped subs = IsMap subs × AllMaps subs

delete-AllMaps : (k : ℕ) (subs : Map Subscriber) → AllMaps subs → AllMaps (delete k subs)
unfolding delete
delete-AllMaps k [] h = h
delete-AllMaps k ((appid, s) ∷ subs) (h, hs) = ground (arith, delete-AllMaps k subs hs)

value_at-AllMaps :
    (k : ℕ) (subs : Map Subscriber)
    → AllMaps subs
    → IsMap (Option.get_or (value_at k subs) new_subscriber).uids
unfolding value_at
value_at-AllMaps k [] h = tt
value_at-AllMaps k ((appid, s) ∷ subs) (h, hs) = elim (Bool-cases (appid == k)) [
  | inl e ↦ rw e h
  | inr e ↦ rw e (value_at-AllMaps k subs hs)
]

set_subscriber-Mapped :
    (appid : ℕ) (s : Subscriber) (c : Channel)
    → Mapped c.subscribers
    → IsMap s.uids
    → Mapped (set_subscriber appid s c).subscribers
unfolding set_subscriber put
set_subscriber-Mapped appid s c (h, hs) i =
    (put-IsMap appid s c.subscribers h, (i, delete-AllMaps appid c.subscribers hs))

sends-Mapped :
    (p q : Bool) (i j : ℕ) (a b : Body) (c : Channel)
    → Mapped c.subscribers
    → Mapped (if p then write i a c else if q then write j b c else c).subscribers
unfolding write
sends-Mapped true q i j a b c h = h
sends-Mapped false true i j a b c h = h
sends-Mapped false false i j a b c h = h

module _ (appid uid : ℕ) (on : Bool) (c : Channel) (h : Mapped c.subscribers) where
  pub subscribe-Mapped : Mapped (subscribe appid uid on c).subscribers
  unfolding subscribe add_subscribe subscriber_of
  subscribe-Mapped =
      let s = subscriber_of appid c in
      let i : IsMap s.uids = value_at-AllMaps appid c.subscribers h.1 in
      search (sends-Mapped, set_subscriber-Mapped, put-IsMap, i, h)

  remove_uid-IsMap :
      (count : ℕ) (s : Subscriber) → IsMap s.uids → IsMap (remove_uid uid on count s).uids
  unfolding remove_uid
  remove_uid-IsMap count s i = elim (Bool-cases (ltb 0 (total_of count - 1))) [
    | inl e ↦ rw e (put-IsMap uid _ s.uids i)
    | inr e ↦ rw e (delete-IsMap uid s.uids i)
  ]

  remove_subscribe-Mapped : Mapped (remove_subscribe appid uid on c).0.subscribers
  unfolding remove_subscribe
  remove_subscribe-Mapped = elim (Option-cases (value_at appid c.subscribers)) [
    | inl e ↦ rw (e, remove_subscribe) h
    | inr (s, e) ↦
        let i : IsMap s.uids = rw e at (value_at-AllMaps appid c.subscribers h.1) in
        elim (Option-cases (value_at uid s.uids)) [
          | inl f ↦ rw (e, f, remove_subscribe) h
          | inr (count, f) ↦
              rw (e, f, remove_subscribe)
                (set_subscriber-Mapped appid _ c h (remove_uid-IsMap count s i))
        ]
  ]

  pub unsubscribe-Mapped : Mapped (unsubscribe appid uid on c).subscribers
  unfolding unsubscribe
  unsubscribe-Mapped = search (sends-Mapped, remove_subscribe-Mapped)
