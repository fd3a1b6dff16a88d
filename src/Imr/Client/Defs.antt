-- ===== src/Imr/Client/Defs.antt =====
-- The clients of the route server and the handlers of their messages.
use im_service.Prelude.{
  ℕ, Bool, true, false, not, ◌&&◌, ◌||◌, List, [], ◌∷◌, ◌++◌, none, some, ◌==◌, if◌then◌else◌,
}
use im_service.Prelude.Bytes.{Bytes}
use im_service.Core.Body.{
  Message, Body, Nested, AppHeader, AppUserId, AppRoomId, SubscribeMessage, ImMessage,
  CustomerMessage, cmd, body,
}
use im_service.Core.Command.{
  msg_subscribe, msg_unsubscribe, msg_publish, msg_publish_group, msg_push, msg_subscribe_room,
  msg_unsubscribe_room, msg_publish_room, msg_group_im, msg_im, msg_customer, msg_customer_support,
  msg_system,
}
use im_service.Core.Decode.{Outcome, ok, panic, ◌>>=◌}
use im_service.Imr.Route.{
  Route, AppRoute, find_route, at_route, contain_user_id, is_user_online, contain_room_id,
  add_user_id, remove_user_id, add_room_id, remove_room_id,
}

-- `Client`: `id` stands for the pointer, and `wt` is what was sent to its channel, in order.
pub record Client : Type 0 where
  pub id : ℕ
  pub app_route : AppRoute
  pub wt : List Message

-- What the calls `Publish…Message` are given to push.
pub data Push : Type 0 where
  group : ℕ → List ℕ → ImMessage → Push
  peer : ℕ → ImMessage → Push
  customer : ℕ → ℕ → CustomerMessage → ℕ → Push
  system : ℕ → ℕ → Bytes → Push

-- The globals: `clients`, `config.is_push_system`, and what was pushed, in order.
pub record Server : Type 0 where
  pub clients : List Client
  pub is_push_system : Bool
  pub pushed : List Push

abbrev pub new_client : ℕ → Client
new_client id = record { id = id; app_route = []; wt = [] }

-- A test of the client's route of an app; there is none in a new one.
abbrev pub at_app : ℕ → (Route → Bool) → Client → Bool
at_app appid test c = elim (find_route appid c.app_route) [ none ↦ false | some r ↦ test r ]

unfoldable pub contain_app_user_id : ℕ → ℕ → Client → Bool
contain_app_user_id appid uid c = at_app appid (contain_user_id uid) c

unfoldable pub is_app_user_online : ℕ → ℕ → Client → Bool
is_app_user_online appid uid c = at_app appid (is_user_online uid) c

unfoldable pub contain_app_room_id : ℕ → ℕ → Client → Bool
contain_app_room_id appid room_id c = at_app appid (contain_room_id room_id) c

unfoldable pub add_client : Client → Server → Server
add_client c s = record s { clients = c ∷ s.clients }

-- The clients but one.
unfoldable pub without : ℕ → List Client → List Client
without id [] = []
without id (c ∷ cs) = if c.id == id then without id cs else c ∷ without id cs

unfoldable pub remove_client : ℕ → Server → Server
remove_client id s = record s { clients = without id s.clients }

-- The route server's `IsUserOnline`.
unfoldable pub is_online_somewhere : ℕ → ℕ → List Client → Bool
is_online_somewhere appid uid [] = false
is_online_somewhere appid uid (c ∷ cs) =
    is_app_user_online appid uid c || is_online_somewhere appid uid cs

-- A change of the client's own state.
unfoldable pub update_client : ℕ → (Client → Client) → List Client → List Client
update_client id f [] = []
update_client id f (c ∷ cs) = (if c.id == id then f c else c) ∷ update_client id f cs

-- The loops over `FindClientSet`, `FindRoomClientSet` or `GetClientSet`: the message goes to each
-- client of the set but the sender.
unfoldable pub deliver : (Client → Bool) → ℕ → Message → List Client → List Client
deliver test id m [] = []
deliver test id m (c ∷ cs) =
    (if test c && not (c.id == id) then record c { wt = c.wt ++ m ∷ [] } else c)
    ∷ deliver test id m cs

-- A handler that changes the client's routes.
unfoldable pub route_call : ℕ → ℕ → (Route → Route) → Server → Server
route_call id appid call s = record s {
  clients =
      update_client id (λ c. record c { app_route = at_route appid call c.app_route }) s.clients;
}

unfoldable pub handle_subscribe : ℕ → SubscribeMessage → Server → Server
handle_subscribe id m = route_call id m.appid (add_user_id m.uid (not (m.online == 0)))

unfoldable pub handle_unsubscribe : ℕ → AppUserId → Server → Server
handle_unsubscribe id m = route_call id m.appid (remove_user_id m.uid)

unfoldable pub handle_subscribe_room : ℕ → AppRoomId → Server → Server
handle_subscribe_room id m = route_call id m.appid (add_room_id m.room_id)

unfoldable pub handle_unsubscribe_room : ℕ → AppRoomId → Server → Server
handle_unsubscribe_room id m = route_call id m.appid (remove_room_id m.room_id)

abbrev pub forward : ℕ → AppHeader → Nested → Message
forward command h m = Message.message command 0 0 0 (Body.app_message h m) none

unfoldable pub handle_publish : ℕ → AppHeader → Nested → Server → Server
handle_publish id h m s = record s {
  clients = deliver (contain_app_user_id h.appid h.receiver) id (forward msg_publish h m) s.clients;
}

unfoldable pub handle_publish_group : ℕ → AppHeader → Nested → Server → Server
handle_publish_group id h m s = record s {
  clients = deliver (λ c. true) id (forward msg_publish_group h m) s.clients;
}

unfoldable pub handle_publish_room : ℕ → AppHeader → Nested → Server → Server
handle_publish_room id h m s = record s {
  clients =
      deliver (contain_app_room_id h.appid h.receiver) id (forward msg_publish_room h m) s.clients;
}

-- `off_members`.
unfoldable pub off_members : ℕ → List ℕ → List Client → List ℕ
off_members appid [] clients = []
off_members appid (uid ∷ uids) clients =
    if is_online_somewhere appid uid clients
    then off_members appid uids clients
    else uid ∷ off_members appid uids clients

-- What is pushed to the members that are not online, by the command of the message. The type
-- assertions panic on another body.
unfoldable pub push_of : Bool → ℕ → ℕ → List ℕ → Message → Outcome (List Push)
push_of is_push_system appid receiver members m =
    if cmd m == msg_group_im
    then elim (body m) [ Body.im_message im ↦ ok (Push.group appid members im ∷ []) | _ ↦ panic ]
    else if cmd m == msg_im
    then elim (body m) [ Body.im_message im ↦ ok (Push.peer appid im ∷ []) | _ ↦ panic ]
    else if cmd m == msg_customer || cmd m == msg_customer_support
    then elim (body m) [
      | Body.customer_message cs ↦ ok (Push.customer appid receiver cs (cmd m) ∷ [])
      | _ ↦ panic
    ]
    else if cmd m == msg_system
    then elim (body m) [
      | Body.system_message n ↦
          ok (if is_push_system then Push.system appid receiver n ∷ [] else [])
      | _ ↦ panic
    ]
    else ok []

-- The log line reads the command of the message, which panics on nil.
unfoldable pub handle_push : ℕ → List ℕ → Nested → Server → Outcome Server
handle_push appid receivers Nested.nil s = panic
handle_push appid receivers (Nested.ref m) s = elim (off_members appid receivers s.clients) [
  | [] ↦ ok s
  | u ∷ us ↦ do
    ps ← push_of s.is_push_system appid u (u ∷ us) m
    ok (record s { pushed = s.pushed ++ ps })
]

-- So does the log line of the three handlers that publish.
abbrev pub unless_nil : Nested → Server → Outcome Server
unless_nil Nested.nil s = panic
unless_nil (Nested.ref m) s = ok s

-- `HandleMessage` of the client `id`. A type assertion panics on a body of another type.
unfoldable pub handle_message : ℕ → Message → Server → Outcome Server
handle_message id m s =
    let command = cmd m in
    if command == msg_subscribe
    then elim (body m) [ Body.subscribe b ↦ ok (handle_subscribe id b s) | _ ↦ panic ]
    else if command == msg_unsubscribe
    then elim (body m) [ Body.app_user_id b ↦ ok (handle_unsubscribe id b s) | _ ↦ panic ]
    else if command == msg_publish
    then elim (body m) [ Body.app_message h n ↦ unless_nil n (handle_publish id h n s) | _ ↦ panic ]
    else if command == msg_publish_group
    then elim (body m) [
      | Body.app_message h n ↦ unless_nil n (handle_publish_group id h n s)
      | _ ↦ panic
    ]
    else if command == msg_push
    then elim (body m) [
      | Body.batch_push appid receivers n ↦ handle_push appid receivers n s
      | _ ↦ panic
    ]
    else if command == msg_subscribe_room
    then elim (body m) [ Body.app_room_id b ↦ ok (handle_subscribe_room id b s) | _ ↦ panic ]
    else if command == msg_unsubscribe_room
    then elim (body m) [ Body.app_room_id b ↦ ok (handle_unsubscribe_room id b s) | _ ↦ panic ]
    else if command == msg_publish_room
    then elim (body m) [
      | Body.app_message h n ↦ unless_nil n (handle_publish_room id h n s)
      | _ ↦ panic
    ]
    else ok s

-- The messages that the server receives from one client, in order.
unfoldable pub handle_messages : ℕ → List Message → Server → Outcome Server
handle_messages id [] s = ok s
handle_messages id (m ∷ ms) s = do s' ← handle_message id m s; handle_messages id ms s'
