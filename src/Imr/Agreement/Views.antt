-- ===== src/Imr/Agreement/Views.antt =====
-- What a route server knows of the users of an `im` server: im/channel.go with imr/client.go.
use im_service.Prelude.{
  ℕ, ◌≤◌, ◌≡◌, refl, ap, ◌∙◌, Bool, true, false, not, ◌&&◌, List, [], ◌∷◌, ◌++◌, Option, none, some,
  arith, ltb, ◌==◌, if◌then◌else◌, Option-cases, inl, inr,
}
use im_service.Core.Body.{Message, Nested, AppHeader}
use im_service.Core.Command.{msg_publish}
use im_service.Core.Decode.{ok}
use im_service.Im.Channel.Defs.{Channel, new_channel, publish, write}
use im_service.Im.Channel.Counts.{Connection, total, online, online-le-total}
use im_service.Im.Channel.Connected.{numbered, run_once}
use im_service.Prelude.Maps.{value_at}
use im_service.Imr.Route.Defs.{find_route, contain_user_id, is_user_online}
use im_service.Imr.Route.Flags.{flag_at}
use im_service.Imr.Client.Defs.{
  Client, Server, new_client, at_app, contain_app_user_id, is_app_user_online, handle_messages,
  handle_message, handle_publish, forward,
}
use im_service.Imr.Client.Flags.{find_client, flag_after, AllSubscribe, handle_messages-Stepped}
use im_service.Imr.Client.Delivery.{sent_if, find_client-handle_publish}
use im_service.Imr.Agreement.Sends.{flag_of}
use im_service.Imr.Agreement.Calls.{Connects, flag_after-Connects, Connects-AllSubscribe}
use im_service.Imr.Agreement.Reconnect.{
  flag_after-numbered, numbered-AllSubscribe, run_once-AllSubscribe, queued-AllSubscribe,
  flag_after-run_once,
}
use mathlib.Core.Option

-- The route server handles the messages of a client without a panic, and then the client has exactly
-- the users that have a connection, and online are exactly those that have one that is online. It was sent
-- nothing.
abbrev pub Agrees : ℕ → List Connection → List Message → Server → Type 0
Agrees id live ms s =
    (s' : Server) × (c : Client) × (handle_messages id ms s ≡ ok s')
    × (find_client id s'.clients ≡ some c)
    × (c.wt ≡ [])
    × ((a u : ℕ)
        → (contain_app_user_id a u c ≡ ltb 0 (total a u live))
          × (is_app_user_online a u c ≡ ltb 0 (online a u live)))

abbrev is_there : Option Bool → Bool
is_there none = false
is_there (some b) = true

contain_app_user_id-flag_at :
    (a u : ℕ) (c : Client) → contain_app_user_id a u c ≡ is_there (flag_at a u c.app_route)
unfolding contain_app_user_id flag_at contain_user_id
contain_app_user_id-flag_at a u c = elim (Option-cases (find_route a c.app_route)) [
  | inl e ↦ rw (e, contain_app_user_id, at_app) refl
  | inr (r, e) ↦ elim (Option-cases (value_at u r.uids)) [
    | inl f ↦ rw (e, f, contain_app_user_id, at_app, contain_user_id) refl
    | inr (b, f) ↦ rw (e, f, contain_app_user_id, at_app, contain_user_id) refl
  ]
]

is_app_user_online-flag_at :
    (a u : ℕ) (c : Client)
    → is_app_user_online a u c ≡ Option.get_or (flag_at a u c.app_route) false
unfolding is_app_user_online flag_at is_user_online
is_app_user_online-flag_at a u c = elim (Option-cases (find_route a c.app_route)) [
  | inl e ↦ rw (e, is_app_user_online, at_app) refl
  | inr (r, e) ↦ rw (e, is_app_user_online, at_app) refl
]

is_there-flag_of : (n m : ℕ) → is_there (flag_of n m) ≡ ltb 0 n
is_there-flag_of n m = ground arith

get_or-flag_of : (n m : ℕ) → m ≤ n → Option.get_or (flag_of n m) false ≡ ltb 0 m
get_or-flag_of n m h = ground arith

-- Messages after which the flags are those of the connections.
flags-Agrees :
    (id : ℕ) (live : List Connection) (ms : List Message) (s : Server)
    → find_client id s.clients ≡ some (new_client id)
    → AllSubscribe ms
    → ((a u : ℕ) → flag_after a u none ms ≡ flag_of (total a u live) (online a u live))
    → Agrees id live ms s
unfolding flag_at find_route value_at
flags-Agrees id live ms s e p h =
    let t = handle_messages-Stepped id ms s (new_client id) p e in
    (
      t.server,
      t.client,
      t.runs,
      t.finds,
      t.sends,
      λ a u.
          let f = t.flags a u ∙ h a u in
          (
            contain_app_user_id-flag_at a u t.client ∙ ap is_there f ∙ is_there-flag_of _ _,
            is_app_user_online-flag_at a u t.client
                ∙ ap (λ g. Option.get_or g false) f
                ∙ get_or-flag_of _ _ (online-le-total a u live),
          ),
    )

-- What a channel sent, after calls of `Subscribe` and `Unsubscribe` that do not overlap, of
-- connections that are opened (fewer than 65535 of one user) and closed, is handled by a route
-- server with a new client without a panic, and then `ContainAppUserID` holds of exactly the users
-- that have a connection and `IsAppUserOnline` of exactly those that have one that is online.
pub subscribe-handle_messages :
    (id seq : ℕ) {live : List Connection} {c : Channel} (s : Server)
    → Connects live c
    → find_client id s.clients ≡ some (new_client id)
    → Agrees id live (numbered seq c.wt) s
subscribe-handle_messages id seq {live} {c} s p e =
    flags-Agrees id live (numbered seq c.wt) s e
      (numbered-AllSubscribe seq c.wt (Connects-AllSubscribe p))
      (λ a u. flag_after-numbered a u seq none c.wt ∙ flag_after-Connects a u p)

-- Take a channel after calls of `Subscribe` and `Unsubscribe` that do not overlap, of connections
-- that are opened (fewer than 65535 of one user) and closed, and a suffix of what it sent that
-- still stands in `wt`. What `RunOnce` sends on a new connection, the subscriptions of the moment
-- and then that suffix, is handled by a route server with a new client without a panic, and then
-- `ContainAppUserID` holds of exactly the users that have a connection and `IsAppUserOnline` of
-- exactly those that have one that is online.
pub run_once-handle_messages :
    (id : ℕ) {live : List Connection} {c : Channel} (sent queued : List Message) (s : Server)
    → Connects live c
    → c.wt ≡ sent ++ queued
    → find_client id s.clients ≡ some (new_client id)
    → Agrees id live (run_once c queued) s
run_once-handle_messages id {live} {c} sent queued s p w e =
    flags-Agrees id live (run_once c queued) s e
      (run_once-AllSubscribe c queued (queued-AllSubscribe p sent queued w))
      (flag_after-run_once p sent queued w)

sent_if-wt :
    (b : Bool) (m : Message) (c : Client)
    → c.wt ≡ []
    → (sent_if b m c).wt ≡ (if b then m ∷ [] else [])
sent_if-wt true m c e = rw e refl
sent_if-wt false m c e = e

and_true : (b : Bool) → b && true ≡ b
and_true true = refl
and_true false = refl

-- Take a channel after calls of `Subscribe` and `Unsubscribe` that do not overlap, of connections
-- that are opened (fewer than 65535 of one user) and closed, whose messages a route server with a
-- new client handled. A message that another client then publishes for a user is handled without a
-- panic and is sent to the client if the user has a connection there, and is not if the user has
-- none.
pub publish-handle_message :
    (id j seq : ℕ) (h : AppHeader) (m : Message) {live : List Connection} {c : Channel} (s : Server)
    → j == id ≡ false
    → Connects live c
    → find_client j s.clients ≡ some (new_client j)
    → (s1 : Server) × (s2 : Server) × (d : Client) × (handle_messages j (numbered seq c.wt) s
        ≡ ok s1)
      × (handle_messages id (publish h (Nested.ref m) new_channel).wt s1 ≡ ok s2)
      × (find_client j s2.clients ≡ some d)
      × (d.wt ≡ (
          if ltb 0 (total h.appid h.receiver live)
          then forward msg_publish h (Nested.ref m) ∷ []
          else []))
unfolding handle_messages handle_message publish write
publish-handle_message id j seq h m {live} {c} s ne p e =
    let (s1, d, runs, finds, empty, knows) = subscribe-handle_messages j seq s p e in
    let fm = forward msg_publish h (Nested.ref m) in
    let b = contain_app_user_id h.appid h.receiver d in
    let to : b && not (j == id) ≡ ltb 0 (total h.appid h.receiver live) =
      rw ne (and_true b) ∙ (knows h.appid h.receiver).0 in
    let f = find_client-handle_publish id j h (Nested.ref m) s1 in
    (
      s1,
      handle_publish id h (Nested.ref m) s1,
      sent_if (contain_app_user_id h.appid h.receiver d && not (j == id))
          (forward msg_publish h (Nested.ref m)) d,
      runs,
      refl,
      f ∙ rw finds refl,
      sent_if-wt _ fm d empty ∙ ap (λ (b : Bool). if b then fm ∷ [] else []) to,
    )
