-- ===== src/Imr/Agreement/Calls.antt =====
-- im/channel.go's `Subscribe` and `Unsubscribe` with imr/client.go's handlers of what they send.
use im_service.Prelude.{
  ℕ, ◌+◌, ◌-◌, ◌^◌, ◌<◌, ◌≡◌, refl, sym, ap, ◌∙◌, ◌&&◌, List, [], ◌∷◌, none, ltb, ◌==◌, Bool-cases,
  inl, inr,
}
use im_service.Im.Channel.Defs.{Channel, new_channel, subscribe, unsubscribe}
use im_service.Im.Channel.Counts.{
  Connection, is_of, one_if, total, online, online-le-total, Removes, Removes-total, Removes-online,
}
use im_service.Im.Channel.Subscribed.{
  Counted, new_channel-Counted, subscribe_sends, unsubscribe_sends, subscribe-wt, subscribe-Counted,
  unsubscribe-wt, unsubscribe-Counted, is_of-counts, before,
}
use im_service.Imr.Client.Flags.{
  flag_after, flag_after-append, AllSubscribe, nil, cons, user, user_gone, append-AllSubscribe,
}
use im_service.Imr.Agreement.Sends.{
  flag_of, flag_after-subscribe_sends, flag_after-unsubscribe_sends, subscribe_sends-other,
  unsubscribe_sends-other, flag_of-other,
}

-- The calls of a channel, one after the other, and the connections that are open after them.
pub data Connects : List Connection → Channel → Type 0 where
  start : Connects [] new_channel
  on :
      {live : List Connection} {c : Channel} (x : Connection)
      → Connects live c
      → total x.appid x.uid live < 2 ^ 16 - 1
      → Connects (x ∷ live) (subscribe x.appid x.uid x.online c)
  off :
      {live live' : List Connection} {c : Channel} (x : Connection)
      → Connects live c
      → Removes x live live'
      → Connects live' (unsubscribe x.appid x.uid x.online c)

-- After calls of `Subscribe` and `Unsubscribe` that do not overlap, of connections that are opened
-- (fewer than 65535 of one user) and closed, the entry of each user is the number of the user's
-- connections in its low 16 bits and how many of them are online in the next 16, there is none for
-- a user without a connection, and both numbers are below 65536.
pub Connects-Counted : {live : List Connection} {c : Channel} → Connects live c → Counted live c
Connects-Counted start = new_channel-Counted
Connects-Counted (on {live} {c} x p room) = subscribe-Counted live c (Connects-Counted p) x room
Connects-Counted (off {live} {live'} {c} x p r) =
    unsubscribe-Counted live c (Connects-Counted p) x r

subscribe_sends-AllSubscribe : (n m : ℕ) (x : Connection) → AllSubscribe (subscribe_sends n m x)
subscribe_sends-AllSubscribe n m x = elim (Bool-cases (n == 0)) [
  | inl z ↦ rw z (cons (user _ _) nil)
  | inr z ↦ elim (Bool-cases (m == 0 && x.online)) [
    | inl w ↦ rw (z, w) (cons (user _ _) nil)
    | inr w ↦ rw (z, w) nil
  ]
]

unsubscribe_sends-AllSubscribe : (n m : ℕ) (x : Connection) → AllSubscribe (unsubscribe_sends n m x)
unsubscribe_sends-AllSubscribe n m x = elim (Bool-cases (n == 1)) [
  | inl z ↦ rw z (cons (user_gone _ _) nil)
  | inr z ↦ elim (Bool-cases (ltb 1 n && m == 1 && x.online)) [
    | inl w ↦ rw (z, w) (cons (user _ _) nil)
    | inr w ↦ rw (z, w) nil
  ]
]

pub Connects-AllSubscribe :
    {live : List Connection} {c : Channel} → Connects live c → AllSubscribe c.wt
Connects-AllSubscribe start = nil
Connects-AllSubscribe (on {live} {c} x p room) = rw (subscribe-wt live c (Connects-Counted p) x) (
    append-AllSubscribe (Connects-AllSubscribe p)
      (subscribe_sends-AllSubscribe (total x.appid x.uid live) (online x.appid x.uid live) x))
Connects-AllSubscribe (off {live} {live'} {c} x p r) =
    rw (unsubscribe-wt live c (Connects-Counted p) x r) (
      append-AllSubscribe (Connects-AllSubscribe p)
        (unsubscribe_sends-AllSubscribe (total x.appid x.uid live) (online x.appid x.uid live) x))

-- What was sent says of each user what the connections say.
pub flag_after-Connects :
    {live : List Connection} {c : Channel} (a u : ℕ)
    → Connects live c
    → flag_after a u none c.wt ≡ flag_of (total a u live) (online a u live)
unfolding flag_after
flag_after-Connects a u start = refl
flag_after-Connects a u (on {live} {c} x p room) =
    let h = Connects-Counted p in
    let n = total x.appid x.uid live in
    let m = online x.appid x.uid live in
    ap (flag_after a u none) (subscribe-wt live c h x)
    ∙ flag_after-append a u none c.wt (subscribe_sends n m x)
    ∙ ap (λ f. flag_after a u f (subscribe_sends n m x)) (flag_after-Connects a u p)
    ∙ elim (Bool-cases (is_of a u x)) [
      | inl t ↦
          let z = is_of-counts a u x live t in
          rw (z.0, z.1, t)
            (flag_after-subscribe_sends a u n m x (online-le-total x.appid x.uid live) t)
      | inr t ↦
          subscribe_sends-other a u n m x _ t
          ∙ sym (flag_of-other (total a u live) (online a u live) (is_of a u x) x.online t)
    ]
flag_after-Connects a u (off {live} {live'} {c} x p r) =
    let h = Connects-Counted p in
    let n = total x.appid x.uid live in
    let m = online x.appid x.uid live in
    let q : flag_of (total a u live) (online a u live)
        ≡ flag_of (one_if (is_of a u x) + total a u live')
            (one_if (is_of a u x && x.online) + online a u live') =
      rw (Removes-total a u r, Removes-online a u r) refl in
    ap (flag_after a u none) (unsubscribe-wt live c h x r)
    ∙ flag_after-append a u none c.wt (unsubscribe_sends n m x)
    ∙ ap (λ f. flag_after a u f (unsubscribe_sends n m x)) (flag_after-Connects a u p ∙ q)
    ∙ elim (Bool-cases (is_of a u x)) [
      | inl t ↦
          let z = is_of-counts a u x live' t in
          let b = before live c h x r in
          rw (z.0, z.1, t, b.0, b.1)
            (flag_after-unsubscribe_sends a u (total x.appid x.uid live')
              (online x.appid x.uid live') x (online-le-total x.appid x.uid live') t)
      | inr t ↦
          unsubscribe_sends-other a u n m x _ t
          ∙ flag_of-other (total a u live') (online a u live') (is_of a u x) x.online t
    ]
