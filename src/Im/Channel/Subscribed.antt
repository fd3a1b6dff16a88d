-- ===== src/Im/Channel/Subscribed.antt =====
-- `Subscribe` and `Unsubscribe` keep the counts of the connections, as long as they fit 16 bits.
use im_service.Prelude.{
  ℕ, ◌+◌, ◌-◌, ◌*◌, ◌^◌, ◌≤◌, ◌<◌, ◌≡◌, refl, sym, ap, ◌∙◌, Bool, true, false, ◌&&◌, List, [], ◌∷◌,
  ◌++◌, none, some, arith, ltb, ◌==◌, if◌then◌else◌, ==_eq, Bool-cases, Option-cases, append-nil,
  inl, inr,
}
use im_service.Prelude.Maps.{value_at}
use im_service.Core.Body.{Message, Body}
use im_service.Core.Command.{msg_subscribe, msg_unsubscribe}
use im_service.Im.Channel.Defs.{
  Channel, new_channel, total_of, online_of, pack, set_subscriber, add_subscribe, remove_subscribe,
  minus_one, write, subscribe_body, subscribe, unsubscribe,
}
use im_service.Im.Channel.Counts.{
  Connection, is_of, one_if, total, online, online-le-total, Removes, Removes-total, Removes-online,
  entry, counted, pack-counted, entry-add_subscribe, entry-remove_subscribe,
}
use mathlib.Core.Option

total_of-counted : (n m : ℕ) → n < 2 ^ 16 → total_of (Option.get_or (counted n m) 0) ≡ n
total_of-counted n m hn = ground arith

online_of-counted : (n m : ℕ) → n < 2 ^ 16 → m ≤ n → online_of (Option.get_or (counted n m) 0) ≡ m
online_of-counted n m hn hm = ground arith

-- One connection more and one less, as the calls count them.
counted-more :
    (n m : ℕ) (o : Bool)
    → n < 2 ^ 16 - 1
    → m ≤ n
    → some (pack (if o then m + 1 else m) (n + 1)) ≡ counted (1 + n) (one_if o + m)
counted-more n m true hn hm =
    rw (pack-counted (m + 1) (n + 1) (omega arith) (omega arith)) (ground arith)
counted-more n m false hn hm =
    rw (pack-counted m (n + 1) (omega arith) (omega arith)) (ground arith)

counted-less :
    (n m : ℕ) (o : Bool)
    → 1 + n < 2 ^ 16
    → m ≤ n
    → (if ltb 0 (1 + n - 1)
        then some (pack (if o then minus_one (one_if o + m) else one_if o + m) (1 + n - 1))
        else none)
      ≡ counted n m
counted-less n m o hn hm =
    let en : 1 + n - 1 ≡ n = omega arith in
    let em : (if o then minus_one (one_if o + m) else one_if o + m) ≡ m = ground arith in
    rw (en, em, pack-counted m n (omega arith) (omega arith)) (ground arith)

-- A connection of another user counts for nothing.
counted-other :
    (n m : ℕ) (b o : Bool) → b ≡ false → counted (one_if b + n) (one_if (b && o) + m) ≡ counted n m
counted-other n m b o e = rw e (ground arith)

-- Each user's count is that of the user's connections.
pub record Counted (live : List Connection) (c : Channel) : Type 0 where
  pub counts : (a u : ℕ) → entry a u c ≡ counted (total a u live) (online a u live)
  pub fits : (a u : ℕ) → total a u live < 2 ^ 16

-- What `Subscribe` and `Unsubscribe` send, given the counts before them.
abbrev pub subscribe_sends : ℕ → ℕ → Connection → List Message
subscribe_sends n m x =
    if n == 0
    then Message.message msg_subscribe 0 0 0 (subscribe_body x.appid x.uid x.online) none ∷ []
    else if m == 0 && x.online
    then Message.message msg_subscribe 0 0 0 (subscribe_body x.appid x.uid true) none ∷ []
    else []

abbrev pub unsubscribe_sends : ℕ → ℕ → Connection → List Message
unsubscribe_sends n m x =
    if n == 1
    then Message.message msg_unsubscribe 0 0 0
        (Body.app_user_id (record { appid = x.appid; uid = x.uid })) none
      ∷ []
    else if ltb 1 n && m == 1 && x.online
    then Message.message msg_subscribe 0 0 0 (subscribe_body x.appid x.uid false) none ∷ []
    else []

-- The counts of a connection's user are the connection's.
pub is_of-counts :
    (a u : ℕ) (x : Connection) (xs : List Connection)
    → is_of a u x ≡ true
    → (total a u xs ≡ total x.appid x.uid xs) × (online a u xs ≡ online x.appid x.uid xs)
is_of-counts a u x xs e =
    let ea : x.appid ≡ a = ==_eq x.appid a (ground arith) in
    let eu : x.uid ≡ u = ==_eq x.uid u (ground arith) in
    (
      sym (ap (λ (i : ℕ). total i x.uid xs) ea ∙ ap (λ (j : ℕ). total a j xs) eu),
      sym (ap (λ (i : ℕ). online i x.uid xs) ea ∙ ap (λ (j : ℕ). online a j xs) eu),
    )

if_true : {A : Type 0} {b : Bool} {x : A} (y : A) → b ≡ true → (if b then x else y) ≡ x
if_true y e = rw e refl

if_false : {A : Type 0} {b : Bool} (x : A) {y : A} → b ≡ false → (if b then x else y) ≡ y
if_false x e = rw e refl

-- A channel to which messages were sent.
abbrev pub after : Channel → List Message → Channel
after c ms = record c { wt = c.wt ++ ms }

after-Counted :
    (live : List Connection) (c : Channel) (ms : List Message)
    → Counted live c
    → Counted live (after c ms)
unfolding entry
after-Counted live c ms h = record { counts = h.counts; fits = h.fits }

-- The tests and the sends of both calls.
sends_lem :
    (s t : Bool) (i j : ℕ) (a b : Body) (c : Channel)
    → (if s then write i a c else if t then write j b c else c)
      ≡ after c (
          if s
          then Message.message i 0 0 0 a none ∷ []
          else if t
          then Message.message j 0 0 0 b none ∷ []
          else [])
unfolding write
sends_lem true t i j a b c = refl
sends_lem false true i j a b c = refl
sends_lem false false i j a b c = rw (append-nil c.wt) refl

pub new_channel-Counted : Counted [] new_channel
unfolding entry value_at
new_channel-Counted = record { counts = λ a u. refl; fits = λ a u. omega arith }

add_subscribe-wt :
    (x : Connection) (c : Channel) → (add_subscribe x.appid x.uid x.online c).0.wt ≡ c.wt
unfolding add_subscribe set_subscriber
add_subscribe-wt x c = refl

remove_subscribe-wt :
    (x : Connection) (c : Channel) → (remove_subscribe x.appid x.uid x.online c).0.wt ≡ c.wt
unfolding remove_subscribe set_subscriber
remove_subscribe-wt x c = elim (Option-cases (value_at x.appid c.subscribers)) [
  | inl e ↦ rw (e, remove_subscribe) refl
  | inr (s, e) ↦ elim (Option-cases (value_at x.uid s.uids)) [
    | inl f ↦ rw (e, f, remove_subscribe) refl
    | inr (count, f) ↦ rw (e, f, remove_subscribe) refl
  ]
]

module _ (live : List Connection) (c : Channel) (h : Counted live c) (x : Connection) where
  abbrev n : ℕ
  n = total x.appid x.uid live

  abbrev m : ℕ
  m = online x.appid x.uid live

  fits_m : m < 2 ^ 16
  fits_m = omega (arith, h.fits x.appid x.uid, online-le-total x.appid x.uid live)

  -- The counts before the call.
  pub count_before :
      (total_of (Option.get_or (entry x.appid x.uid c) 0) ≡ n)
      × (online_of (Option.get_or (entry x.appid x.uid c) 0) ≡ m)
  count_before = rw (h.counts x.appid x.uid) (
    total_of-counted n m (h.fits x.appid x.uid),
    online_of-counted n m (h.fits x.appid x.uid) (online-le-total x.appid x.uid live),
  )

  -- `Subscribe` as `AddSubscribe` and what it sends.
  subscribe_lem :
      subscribe x.appid x.uid x.online c
      ≡ after (add_subscribe x.appid x.uid x.online c).0 (subscribe_sends n m x)
  unfolding subscribe
  subscribe_lem =
      let b = count_before in
      let e = entry-add_subscribe x.appid x.uid 0 0 x.online c in
      rw (e.0 ∙ b.0, e.1 ∙ b.1) (search sends_lem)

  pub subscribe-wt : (subscribe x.appid x.uid x.online c).wt ≡ c.wt ++ subscribe_sends n m x
  subscribe-wt =
      ap (λ (d : Channel). d.wt) subscribe_lem
      ∙ ap (λ (w : List Message). w ++ subscribe_sends n m x) (add_subscribe-wt x c)

  module _ (room : n < 2 ^ 16 - 1) where
    pub add-Counted : Counted (x ∷ live) (add_subscribe x.appid x.uid x.online c).0
    add-Counted = record {
      counts = λ a u.
          let e = (entry-add_subscribe x.appid x.uid a u x.online c).2 in
          let b = count_before in
          elim (Bool-cases (is_of a u x)) [
            | inl t ↦
                let t' = is_of-counts a u x live t in
                e
                ∙ rw (t, t'.0, t'.1, b.0, b.1)
                    (counted-more n m x.online room (online-le-total x.appid x.uid live))
            | inr t ↦
                let z = counted-other (total a u live) (online a u live) (is_of a u x) x.online t in
                e ∙ if_false _ t ∙ h.counts a u ∙ sym z
          ];
      fits = λ a u.
          let f = h.fits a u in
          elim (Bool-cases (is_of a u x)) [
            | inl t ↦ rw (t, (is_of-counts a u x live t).0) (omega (arith, room))
            | inr t ↦ rw t (omega (arith, f))
          ];
    }

    pub subscribe-Counted : Counted (x ∷ live) (subscribe x.appid x.uid x.online c)
    subscribe-Counted =
        rw subscribe_lem (after-Counted (x ∷ live) _ (subscribe_sends n m x) add-Counted)

  module _ {live' : List Connection} (r : Removes x live live') where
    abbrev n' : ℕ
    n' = total x.appid x.uid live'

    abbrev m' : ℕ
    m' = online x.appid x.uid live'

    is_of-itself : is_of x.appid x.uid x ≡ true
    is_of-itself = ground arith

    pub before : (n ≡ 1 + n') × (m ≡ one_if x.online + m')
    before = (
      Removes-total x.appid x.uid r ∙ rw is_of-itself refl,
      Removes-online x.appid x.uid r ∙ rw is_of-itself refl,
    )

    entry_before : entry x.appid x.uid c ≡ some ((one_if x.online + m') * 2 ^ 16 + (1 + n'))
    entry_before = h.counts x.appid x.uid ∙ rw (before.0, before.1) (ground arith)

    count_here :
        let count = (one_if x.online + m') * 2 ^ 16 + (1 + n') in
        (total_of count ≡ 1 + n') × (online_of count ≡ one_if x.online + m')
    count_here =
        let f = h.fits x.appid x.uid in
        let g = online-le-total x.appid x.uid live in let b = before in (omega arith, ground arith)

    pub remove-Counted : Counted live' (remove_subscribe x.appid x.uid x.online c).0
    remove-Counted = record {
      counts = λ a u.
          let e = (entry-remove_subscribe x.appid x.uid a u _ x.online c entry_before).2 in
          let o = Removes-online a u r in
          let t = Removes-total a u r in
          elim (Bool-cases (is_of a u x)) [
            | inl w ↦
                let z = is_of-counts a u x live' w in
                e
                ∙ if_true _ w
                ∙ rw (count_here.0, count_here.1, z.0, z.1)
                    (counted-less n' m' x.online (omega (arith, h.fits x.appid x.uid, before.0))
                      (online-le-total x.appid x.uid live'))
            | inr w ↦
                e
                ∙ if_false _ w
                ∙ h.counts a u
                ∙ rw (o, t) (counted-other _ _ (is_of a u x) x.online w)
          ];
      fits = λ a u. let t = Removes-total a u r in let f = h.fits a u in omega arith;
    }

    unsubscribe_lem :
        unsubscribe x.appid x.uid x.online c
        ≡ after (remove_subscribe x.appid x.uid x.online c).0 (unsubscribe_sends n m x)
    unfolding unsubscribe
    unsubscribe_lem =
        let e = entry-remove_subscribe x.appid x.uid 0 0 _ x.online c entry_before in
        let z = count_here in
        let en = e.0 ∙ z.0 ∙ sym before.0 in
        let em = e.1 ∙ z.1 ∙ sym before.1 in rw (en, em) (search sends_lem)

    pub unsubscribe-Counted : Counted live' (unsubscribe x.appid x.uid x.online c)
    unsubscribe-Counted =
        rw unsubscribe_lem (after-Counted live' _ (unsubscribe_sends n m x) remove-Counted)

    pub unsubscribe-wt : (unsubscribe x.appid x.uid x.online c).wt ≡ c.wt ++ unsubscribe_sends n m x
    unsubscribe-wt =
        ap (λ (d : Channel). d.wt) unsubscribe_lem
        ∙ ap (λ (w : List Message). w ++ unsubscribe_sends n m x) (remove_subscribe-wt x c)
