-- ===== src/Imr/Agreement/Reconnect.antt =====
-- im/channel.go's `RunOnce` on a new connection, with imr/client.go's handlers of what it sends.
use im_service.Prelude.{
  ℕ, ◌+◌, ◌*◌, ◌^◌, ◌≤◌, ◌<◌, ◌≡◌, refl, sym, ap, ◌∙◌, Bool, ◌&&◌, List, [], ◌∷◌, ◌++◌, Option,
  none, some, length, arith, ltb, ◌==◌, if◌then◌else◌, ==_eq, Bool-cases, ◌⊎◌, inl, inr,
}
use im_service.Prelude.Maps.{Map, IsMap, value_at}
use im_service.Core.Body.{Message}
use im_service.Im.Channel.Defs.{
  Subscriber, Channel, online_of, re_subscribe_uids, re_subscribe, re_subscribe_room_ids,
  re_subscribe_room,
}
use im_service.Im.Channel.Counts.{
  Connection, total, online, uid_of, entry, counted, online-le-total,
}
use im_service.Im.Channel.Connected.{with_seq, numbered, run_once}
use im_service.Im.Channel.Mapped.{Mapped, subscribe-Mapped, unsubscribe-Mapped}
use im_service.Im.Channel.Subscribed.{Counted}
use im_service.Imr.Client.Flags.{
  flag_step, flag_after, flag_after-append, Subscribes, AllSubscribe, nil, cons, user, user_gone,
  room, room_gone, append-AllSubscribe, AllSubscribe-drop,
}
use im_service.Imr.Agreement.Sends.{flag_of}
use im_service.Imr.Agreement.Calls.{
  Connects, start, on, off, Connects-Counted, flag_after-Connects, Connects-AllSubscribe,
}

-- The numbers make no difference.
pub flag_after-numbered :
    (a u k : ℕ) (f : Option Bool) (ms : List Message)
    → flag_after a u f (numbered k ms) ≡ flag_after a u f ms
unfolding flag_after numbered
flag_after-numbered a u k f [] = refl
flag_after-numbered a u k f (Message.message c s v g b m ∷ ms) =
    flag_after-numbered a u (k + 1) _ ms

with_seq-Subscribes : (k : ℕ) (m : Message) → Subscribes m → Subscribes (with_seq k m)
with_seq-Subscribes k _ (user i b) = user k b
with_seq-Subscribes k _ (user_gone i b) = user_gone k b
with_seq-Subscribes k _ (room i b) = room k b
with_seq-Subscribes k _ (room_gone i b) = room_gone k b

pub numbered-AllSubscribe :
    (k : ℕ) (ms : List Message) → AllSubscribe ms → AllSubscribe (numbered k ms)
unfolding numbered
numbered-AllSubscribe k _ nil = nil
numbered-AllSubscribe k _ (cons {m} {ms} s p) =
    cons (with_seq-Subscribes (k + 1) m s) (numbered-AllSubscribe (k + 1) ms p)

-- A message about a user makes the same of whatever was known, and any other makes nothing of it.
flag_step-cases :
    (a u : ℕ) (m : Message)
    → Subscribes m
    → ((f g : Option Bool) → flag_step a u m f ≡ flag_step a u m g)
      ⊎ ((f : Option Bool) → flag_step a u m f ≡ f)
flag_step-cases a u _ (user k b) = elim (Bool-cases (b.appid == a && b.uid == u)) [
  | inl e ↦ inl (λ f g. rw e refl)
  | inr e ↦ inr (λ f. rw e refl)
]
flag_step-cases a u _ (user_gone k b) = elim (Bool-cases (b.appid == a && b.uid == u)) [
  | inl e ↦ inl (λ f g. rw e refl)
  | inr e ↦ inr (λ f. rw e refl)
]
flag_step-cases a u _ (room k b) = inr (λ f. refl)
flag_step-cases a u _ (room_gone k b) = inr (λ f. refl)

flag_after-cases :
    (a u : ℕ) (ms : List Message)
    → AllSubscribe ms
    → ((f g : Option Bool) → flag_after a u f ms ≡ flag_after a u g ms)
      ⊎ ((f : Option Bool) → flag_after a u f ms ≡ f)
unfolding flag_after
flag_after-cases a u _ nil = inr (λ f. refl)
flag_after-cases a u _ (cons {m} {ms} s p) = elim (flag_after-cases a u ms p) [
  | inl same ↦ inl (λ f g. same (flag_step a u m f) (flag_step a u m g))
  | inr keeps ↦ elim (flag_step-cases a u m s) [
    | inl same ↦ inl (λ f g. keeps _ ∙ same f g ∙ sym (keeps _))
    | inr step ↦ inr (λ f. keeps _ ∙ step f)
  ]
]

-- Messages that were handled before may come again after their effect.
flag_after-again :
    (a u : ℕ) (f : Option Bool) (sent queued : List Message)
    → AllSubscribe queued
    → flag_after a u (flag_after a u f (sent ++ queued)) queued ≡ flag_after a u f (sent ++ queued)
flag_after-again a u f sent queued p =
    let e = flag_after-append a u f sent queued in
    elim (flag_after-cases a u queued p) [ inl same ↦ same _ _ ∙ sym e | inr keeps ↦ keeps _ ]

-- What `ReSubscribe` says of a user of one app, and of any user.
abbrev said : Option Bool → Option ℕ → Option Bool
said f none = f
said f (some count) = some (ltb 0 (online_of count))

abbrev said_in : ℕ → Option Bool → Option Subscriber → Option Bool
said_in u f none = f
said_in u f (some s) = said f (value_at u s.uids)

flag_after-re_subscribe_uids :
    (a u k appid : ℕ) (f : Option Bool) (uids : Map ℕ)
    → IsMap uids
    → flag_after a u f (re_subscribe_uids k appid uids)
      ≡ (if appid == a then said f (value_at u uids) else f)
unfolding flag_after re_subscribe_uids value_at
flag_after-re_subscribe_uids a u k appid f [] h = ground arith
flag_after-re_subscribe_uids a u k appid f ((uid, count) ∷ uids) (h, hs) =
    flag_after-re_subscribe_uids a u (k + 1) appid _ uids hs ∙ elim (Bool-cases (appid == a)) [
      | inl e ↦ elim (Bool-cases (uid == u)) [
        | inl w ↦
            rw (e, w)
              (rw (ap (λ (i : ℕ). value_at i uids) (sym (==_eq uid u w)) ∙ h) (ground arith))
        | inr w ↦ rw (e, w) refl
      ]
      | inr e ↦ rw e refl
    ]

flag_after-re_subscribe :
    (a u k : ℕ) (f : Option Bool) (subs : Map Subscriber)
    → Mapped subs
    → flag_after a u f (re_subscribe k subs).0 ≡ said_in u f (value_at a subs)
unfolding flag_after re_subscribe value_at
flag_after-re_subscribe a u k f [] h = refl
flag_after-re_subscribe a u k f ((appid, s) ∷ subs) ((h, hs), (i, is)) =
    flag_after-append a u f (re_subscribe_uids k appid s.uids) _
    ∙ flag_after-re_subscribe a u (k + length s.uids) _ subs (hs, is)
    ∙ ap (λ g. said_in u g (value_at a subs)) (flag_after-re_subscribe_uids a u k appid f s.uids i)
    ∙ elim (Bool-cases (appid == a)) [
      | inl e ↦ rw (e, ap (λ (j : ℕ). value_at j subs) (sym (==_eq appid a e)) ∙ h) refl
      | inr e ↦ rw e refl
    ]

flag_after-re_subscribe_room_ids :
    (a u k appid : ℕ) (f : Option Bool) (room_ids : Map ℕ)
    → flag_after a u f (re_subscribe_room_ids k appid room_ids) ≡ f
unfolding flag_after re_subscribe_room_ids
flag_after-re_subscribe_room_ids a u k appid f [] = refl
flag_after-re_subscribe_room_ids a u k appid f ((i, count) ∷ rest) =
    flag_after-re_subscribe_room_ids a u (k + 1) appid f rest

flag_after-re_subscribe_room :
    (a u k : ℕ) (f : Option Bool) (subs : Map Subscriber)
    → flag_after a u f (re_subscribe_room k subs).0 ≡ f
unfolding flag_after re_subscribe_room
flag_after-re_subscribe_room a u k f [] = refl
flag_after-re_subscribe_room a u k f ((appid, s) ∷ subs) =
    let k' = k + length s.room_ids in
    let rest = (re_subscribe_room k' subs).0 in
    flag_after-append a u f (re_subscribe_room_ids k appid s.room_ids) rest
    ∙ ap (λ g. flag_after a u g rest) (flag_after-re_subscribe_room_ids a u k appid f s.room_ids)
    ∙ flag_after-re_subscribe_room a u k' f subs

Connects-Mapped : {live : List Connection} {c : Channel} → Connects live c → Mapped c.subscribers
Connects-Mapped start = (tt, tt)
Connects-Mapped (on {live} {c} x p fits) =
    subscribe-Mapped x.appid x.uid x.online c (Connects-Mapped p)
Connects-Mapped (off {live} {live'} {c} x p r) =
    unsubscribe-Mapped x.appid x.uid x.online c (Connects-Mapped p)

said_in_lem :
    (u : ℕ) (f : Option Bool) (o : Option Subscriber) → said_in u f o ≡ said f (uid_of u o)
said_in_lem u f none = refl
said_in_lem u f (some s) = refl

said-counted : (n m : ℕ) → n < 2 ^ 16 → m ≤ n → said none (counted n m) ≡ flag_of n m
said-counted n m hn hm = elim (Bool-cases (n == 0)) [
  | inl e ↦ rw e refl
  | inr e ↦
      let z : online_of (m * 2 ^ 16 + n) ≡ m = ground arith in
      rw e (ap (λ (i : ℕ). some (ltb 0 i)) z)
]

-- The subscriptions of the moment say what the connections say.
flag_after-entry :
    (a u : ℕ) {live : List Connection} {c : Channel}
    → Counted live c
    → said_in u none (value_at a c.subscribers) ≡ flag_of (total a u live) (online a u live)
unfolding entry
flag_after-entry a u {live} {c} h =
    said_in_lem u none (value_at a c.subscribers)
    ∙ ap (said none) (h.counts a u)
    ∙ said-counted (total a u live) (online a u live) (h.fits a u) (online-le-total a u live)

module _ {live : List Connection} {c : Channel} (p : Connects live c) (sent queued : List Message)
    (w : c.wt ≡ sent ++ queued) where
  abbrev users : List Message
  users = (re_subscribe 0 c.subscribers).0

  abbrev rooms : List Message × ℕ
  rooms = re_subscribe_room (re_subscribe 0 c.subscribers).1 c.subscribers

  run_once_lem : run_once c queued ≡ users ++ rooms.0 ++ numbered rooms.1 queued
  unfolding run_once
  run_once_lem = refl

  pub queued-AllSubscribe : AllSubscribe queued
  queued-AllSubscribe =
      AllSubscribe-drop sent queued (rw w at (Connects-AllSubscribe {live = live} {c = c} p))

  pub flag_after-run_once :
      (a u : ℕ)
      → flag_after a u none (run_once c queued) ≡ flag_of (total a u live) (online a u live)
  flag_after-run_once a u =
      let q = numbered rooms.1 queued in
      let now = flag_of (total a u live) (online a u live) in
      let all : flag_after a u none (sent ++ queued) ≡ now =
        ap (flag_after a u none) (sym w) ∙ flag_after-Connects a u p in
      ap (flag_after a u none) run_once_lem
      ∙ flag_after-append a u none (users ++ rooms.0) q
      ∙ ap (λ g. flag_after a u g q)
          (flag_after-append a u none users rooms.0
            ∙ flag_after-re_subscribe_room a u _ _ c.subscribers
            ∙ flag_after-re_subscribe a u 0 none c.subscribers (Connects-Mapped p)
            ∙ flag_after-entry a u (Connects-Counted p))
      ∙ flag_after-numbered a u rooms.1 now queued
      ∙ ap (λ g. flag_after a u g queued) (sym all)
      ∙ flag_after-again a u none sent queued queued-AllSubscribe
      ∙ all

re_subscribe_uids-AllSubscribe :
    (k appid : ℕ) (uids : Map ℕ) → AllSubscribe (re_subscribe_uids k appid uids)
unfolding re_subscribe_uids
re_subscribe_uids-AllSubscribe k appid [] = nil
re_subscribe_uids-AllSubscribe k appid ((uid, n) ∷ uids) =
    cons (user (k + 1) _) (re_subscribe_uids-AllSubscribe (k + 1) appid uids)

re_subscribe-AllSubscribe : (k : ℕ) (subs : Map Subscriber) → AllSubscribe (re_subscribe k subs).0
unfolding re_subscribe
re_subscribe-AllSubscribe k [] = nil
re_subscribe-AllSubscribe k ((appid, s) ∷ subs) =
    append-AllSubscribe (re_subscribe_uids-AllSubscribe k appid s.uids)
      (re_subscribe-AllSubscribe (k + length s.uids) subs)

re_subscribe_room_ids-AllSubscribe :
    (k appid : ℕ) (room_ids : Map ℕ) → AllSubscribe (re_subscribe_room_ids k appid room_ids)
unfolding re_subscribe_room_ids
re_subscribe_room_ids-AllSubscribe k appid [] = nil
re_subscribe_room_ids-AllSubscribe k appid ((i, n) ∷ rest) =
    cons (room (k + 1) _) (re_subscribe_room_ids-AllSubscribe (k + 1) appid rest)

re_subscribe_room-AllSubscribe :
    (k : ℕ) (subs : Map Subscriber) → AllSubscribe (re_subscribe_room k subs).0
unfolding re_subscribe_room
re_subscribe_room-AllSubscribe k [] = nil
re_subscribe_room-AllSubscribe k ((appid, s) ∷ subs) =
    append-AllSubscribe (re_subscribe_room_ids-AllSubscribe k appid s.room_ids)
      (re_subscribe_room-AllSubscribe (k + length s.room_ids) subs)

pub run_once-AllSubscribe :
    (c : Channel) (queued : List Message) → AllSubscribe queued → AllSubscribe (run_once c queued)
unfolding run_once
run_once-AllSubscribe c queued p =
    append-AllSubscribe
      (append-AllSubscribe (re_subscribe-AllSubscribe 0 c.subscribers)
        (re_subscribe_room-AllSubscribe (re_subscribe 0 c.subscribers).1 c.subscribers))
      (numbered-AllSubscribe _ queued p)
