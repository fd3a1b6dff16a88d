-- ===== src/Imr/Client/Delivery.antt =====
-- Which clients a handler that publishes sends to.
use im_service.Prelude.{
  ℕ, ◌≡◌, refl, sym, ap, ◌∙◌, Bool, true, not, ◌&&◌, List, [], ◌∷◌, ◌++◌, ◌==◌, if◌then◌else◌,
  ==_eq, Bool-cases, inl, inr,
}
use im_service.Core.Body.{Message, Nested, AppHeader}
use im_service.Core.Command.{msg_publish, msg_publish_group, msg_publish_room}
use im_service.Imr.Client.Defs.{
  Client, Server, contain_app_user_id, contain_app_room_id, deliver, forward, handle_publish,
  handle_publish_group, handle_publish_room,
}
use im_service.Imr.Client.Flags.{find_client}
use mathlib.Core.Option

-- A client that is sent the message if the test holds of it.
abbrev pub sent_if : Bool → Message → Client → Client
sent_if b m c = if b then record c { wt = c.wt ++ m ∷ [] } else c

find_client-deliver :
    (test : Client → Bool) (id j : ℕ) (m : Message) (cs : List Client)
    → find_client j (deliver test id m cs)
      ≡ Option.map (λ c. sent_if (test c && not (j == id)) m c) (find_client j cs)
unfolding find_client deliver
find_client-deliver test id j m [] = refl
find_client-deliver test id j m (c ∷ cs) = elim (Bool-cases (test c && not (c.id == id))) [
  | inl t ↦ elim (Bool-cases (c.id == j)) [
    | inl e ↦
        let t' = ap (λ (i : ℕ). test c && not (i == id)) (sym (==_eq c.id j e)) ∙ t in
        rw (t, e, t') refl
    | inr e ↦ rw (t, e) (find_client-deliver test id j m cs)
  ]
  | inr t ↦ elim (Bool-cases (c.id == j)) [
    | inl e ↦
        let t' = ap (λ (i : ℕ). test c && not (i == id)) (sym (==_eq c.id j e)) ∙ t in
        rw (t, e, t') refl
    | inr e ↦ rw (t, e) (find_client-deliver test id j m cs)
  ]
]

pub find_client-handle_publish :
    (id j : ℕ) (h : AppHeader) (m : Nested) (s : Server)
    → find_client j (handle_publish id h m s).clients
      ≡ Option.map
          (λ c.
            sent_if
              (contain_app_user_id h.appid h.receiver c && not (j == id))
              (forward msg_publish h m)
              c)
          (find_client j s.clients)
unfolding handle_publish
find_client-handle_publish id j h m s =
    find_client-deliver (contain_app_user_id h.appid h.receiver) id j (forward msg_publish h m)
      s.clients

pub find_client-handle_publish_room :
    (id j : ℕ) (h : AppHeader) (m : Nested) (s : Server)
    → find_client j (handle_publish_room id h m s).clients
      ≡ Option.map
          (λ c.
            sent_if
              (contain_app_room_id h.appid h.receiver c && not (j == id))
              (forward msg_publish_room h m)
              c)
          (find_client j s.clients)
unfolding handle_publish_room
find_client-handle_publish_room id j h m s =
    find_client-deliver (contain_app_room_id h.appid h.receiver) id j (forward msg_publish_room h m)
      s.clients

pub find_client-handle_publish_group :
    (id j : ℕ) (h : AppHeader) (m : Nested) (s : Server)
    → find_client j (handle_publish_group id h m s).clients
      ≡ Option.map
          (λ c. sent_if (not (j == id)) (forward msg_publish_group h m) c)
          (find_client j s.clients)
unfolding handle_publish_group
find_client-handle_publish_group id j h m s =
    find_client-deliver (λ c. true) id j (forward msg_publish_group h m) s.clients
