-- ===== src/Imr/Client/Flags.antt =====
-- What the messages that subscribe do to the routes of the client that they come from.
use im_service.Prelude.{
  ℕ, ◌≡◌, refl, sym, ap, ◌∙◌, Bool, not, ◌&&◌, List, [], ◌∷◌, ◌++◌, Option, none, some, arith, ◌==◌,
  if◌then◌else◌, fun_ext,
}
use im_service.Core.Body.{Message, Body, AppUserId, AppRoomId, SubscribeMessage, cmd, body}
use im_service.Core.Command.{
  msg_subscribe, msg_unsubscribe, msg_subscribe_room, msg_unsubscribe_room,
}
use im_service.Core.Decode.{Outcome, ok, refused, panic, stuck, ◌>>=◌}
use im_service.Imr.Route.{
  Route, AppRoute, at_route, add_user_id, remove_user_id, add_room_id, remove_room_id,
}
use im_service.Imr.Route.Flags.{
  flag_at, flag_at-add_user_id, flag_at-remove_user_id, flag_at-same, add_room_id-uids,
  remove_room_id-uids,
}
use im_service.Imr.Client.Defs.{
  Client, Server, update_client, route_call, handle_subscribe, handle_unsubscribe,
  handle_subscribe_room, handle_unsubscribe_room, handle_message, handle_messages,
}
use mathlib.Core.Option

-- The client of an id.
unfoldable pub find_client : ℕ → List Client → Option Client
find_client id [] = none
find_client id (c ∷ cs) = if c.id == id then some c else find_client id cs

-- A message that subscribes or unsubscribes a user or a room.
pub data Subscribes : Message → Type 0 where
  user :
      (seq : ℕ) (b : SubscribeMessage)
      → Subscribes (Message.message msg_subscribe seq 0 0 (Body.subscribe b) none)
  user_gone :
      (seq : ℕ) (b : AppUserId)
      → Subscribes (Message.message msg_unsubscribe seq 0 0 (Body.app_user_id b) none)
  room :
      (seq : ℕ) (b : AppRoomId)
      → Subscribes (Message.message msg_subscribe_room seq 0 0 (Body.app_room_id b) none)
  room_gone :
      (seq : ℕ) (b : AppRoomId)
      → Subscribes (Message.message msg_unsubscribe_room seq 0 0 (Body.app_room_id b) none)

pub data AllSubscribe : List Message → Type 0 where
  nil : AllSubscribe []
  cons : {m : Message} {ms : List Message} → Subscribes m → AllSubscribe ms → AllSubscribe (m ∷ ms)

-- What a message makes of what is known of a user.
abbrev pub flag_step : ℕ → ℕ → Message → Option Bool → Option Bool
flag_step a u m f =
    if cmd m == msg_subscribe
    then elim (body m) [
      | Body.subscribe b ↦ if b.appid == a && b.uid == u then some (not (b.online == 0)) else f
      | _ ↦ f
    ]
    else if cmd m == msg_unsubscribe
    then elim (body m) [
      | Body.app_user_id b ↦ if b.appid == a && b.uid == u then none else f
      | _ ↦ f
    ]
    else f

unfoldable pub flag_after : ℕ → ℕ → Option Bool → List Message → Option Bool
flag_after a u f [] = f
flag_after a u f (m ∷ ms) = flag_after a u (flag_step a u m f) ms

pub flag_after-append :
    (a u : ℕ) (f : Option Bool) (ms ns : List Message)
    → flag_after a u f (ms ++ ns) ≡ flag_after a u (flag_after a u f ms) ns
unfolding flag_after
flag_after-append a u f [] ns = refl
flag_after-append a u f (m ∷ ms) ns = flag_after-append a u (flag_step a u m f) ms ns

pub append-AllSubscribe :
    {ms ns : List Message} → AllSubscribe ms → AllSubscribe ns → AllSubscribe (ms ++ ns)
append-AllSubscribe nil q = q
append-AllSubscribe (cons s p) q = cons s (append-AllSubscribe p q)

pub AllSubscribe-drop : (ms ns : List Message) → AllSubscribe (ms ++ ns) → AllSubscribe ns
AllSubscribe-drop [] ns p = p
AllSubscribe-drop (m ∷ ms) ns (cons s p) = AllSubscribe-drop ms ns p

abbrev reroute : (AppRoute → AppRoute) → Client → Client
reroute call c = record c { app_route = call c.app_route }

pub find_client-update_client :
    (id : ℕ) (call : AppRoute → AppRoute) (cs : List Client)
    → find_client id (update_client id (reroute call) cs)
      ≡ Option.map (reroute call) (find_client id cs)
unfolding find_client update_client
find_client-update_client id call [] = refl
find_client-update_client id call (c ∷ cs) = ground (arith, find_client-update_client id call cs)

-- What a handler leaves of the client.
find_client-route_call :
    (id appid : ℕ) (call : Route → Route) (s : Server) (c : Client)
    → find_client id s.clients ≡ some c
    → find_client id (route_call id appid call s).clients ≡ some (reroute (at_route appid call) c)
unfolding route_call
find_client-route_call id appid call s c e =
    find_client-update_client id (at_route appid call) s.clients
    ∙ ap (Option.map (reroute (at_route appid call))) e

bind-bind :
    {A B C : Type 0} (o : Outcome A) (f : A → Outcome B) (g : B → Outcome C)
    → ((o >>= f) >>= g) ≡ (o >>= (λ a. f a >>= g))
bind-bind (ok a) f g = refl
bind-bind refused f g = refl
bind-bind panic f g = refl
bind-bind stuck f g = refl

pub handle_messages-append :
    (id : ℕ) (ms ns : List Message) (s : Server)
    → handle_messages id (ms ++ ns) s ≡ (handle_messages id ms s >>= handle_messages id ns)
unfolding handle_messages
handle_messages-append id [] ns s = refl
handle_messages-append id (m ∷ ms) ns s =
    ap (λ (k : Server → Outcome Server). handle_message id m s >>= k)
      (fun_ext (λ t. handle_messages-append id ms ns t))
    ∙ sym (bind-bind (handle_message id m s) (handle_messages id ms) (handle_messages id ns))

-- The state after a message: that of the client, and what it says of each user.
pub record Stepped (id : ℕ) (ms : List Message) (s : Server) (c : Client) : Type 0 where
  pub server : Server
  pub client : Client
  pub runs : handle_messages id ms s ≡ ok server
  pub finds : find_client id server.clients ≡ some client
  pub sends : client.wt ≡ c.wt
  pub flags : (a u : ℕ) → flag_at a u client.app_route ≡ flag_after a u (flag_at a u c.app_route) ms

module _ (id : ℕ) (s : Server) (c : Client) (e : find_client id s.clients ≡ some c) where
  handle_message-Stepped : (m : Message) → Subscribes m → Stepped id (m ∷ []) s c
  unfolding handle_messages handle_message handle_subscribe handle_unsubscribe handle_subscribe_room
      handle_unsubscribe_room flag_after
  handle_message-Stepped m (user k b) = record {
    server = handle_subscribe id b s;
    client = reroute (at_route b.appid (add_user_id b.uid (not (b.online == 0)))) c;
    runs = refl;
    finds = find_client-route_call id b.appid (add_user_id b.uid (not (b.online == 0))) s c e;
    sends = refl;
    flags = λ a u. flag_at-add_user_id b.appid b.uid a u c.app_route (not (b.online == 0));
  }
  handle_message-Stepped m (user_gone k b) = record {
    server = handle_unsubscribe id b s;
    client = reroute (at_route b.appid (remove_user_id b.uid)) c;
    runs = refl;
    finds = find_client-route_call id b.appid (remove_user_id b.uid) s c e;
    sends = refl;
    flags = λ a u. flag_at-remove_user_id b.appid b.uid a u c.app_route;
  }
  handle_message-Stepped m (room k b) = record {
    server = handle_subscribe_room id b s;
    client = reroute (at_route b.appid (add_room_id b.room_id)) c;
    runs = refl;
    finds = find_client-route_call id b.appid (add_room_id b.room_id) s c e;
    sends = refl;
    flags = λ a u.
        flag_at-same b.appid a u (add_room_id b.room_id) c.app_route (add_room_id-uids b.room_id);
  }
  handle_message-Stepped m (room_gone k b) = record {
    server = handle_unsubscribe_room id b s;
    client = reroute (at_route b.appid (remove_room_id b.room_id)) c;
    runs = refl;
    finds = find_client-route_call id b.appid (remove_room_id b.room_id) s c e;
    sends = refl;
    flags = λ a u.
        flag_at-same b.appid a u (remove_room_id b.room_id) c.app_route
          (remove_room_id-uids b.room_id);
  }

pub handle_messages-Stepped :
    (id : ℕ) (ms : List Message) (s : Server) (c : Client)
    → AllSubscribe ms
    → find_client id s.clients ≡ some c
    → Stepped id ms s c
unfolding handle_messages flag_after
handle_messages-Stepped id [] s c nil e = record {
  server = s;
  client = c;
  runs = refl;
  finds = e;
  sends = refl;
  flags = λ a u. refl;
}
handle_messages-Stepped id (m ∷ ms) s c (cons q qs) e =
    let one = handle_message-Stepped id s c e m q in
    let rest = handle_messages-Stepped id ms one.server one.client qs one.finds in
    record {
      server = rest.server;
      client = rest.client;
      runs = handle_messages-append id (m ∷ []) ms s ∙ rw one.runs rest.runs;
      finds = rest.finds;
      sends = rest.sends ∙ one.sends;
      flags = λ a u. rest.flags a u ∙ ap (λ f. flag_after a u f ms) (one.flags a u);
    }
