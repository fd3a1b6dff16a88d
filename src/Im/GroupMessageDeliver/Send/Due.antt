-- ===== src/Im/GroupMessageDeliver/Send/Due.antt =====
-- What a member of a group is due to get, written out: the message and then the notice, each published
-- and queued for the member's clients on this server but the device that the message came from.
use im_service.Prelude.{
  ℕ, ◌≡◌, refl, ap, ◌&&◌, List, [], ◌∷◌, ◌++◌, Option, none, some, ◌==◌, if◌then◌else◌, arith,
}
use im_service.Core.Body.{Message, Body, Metadata, PendingGroupMessage}
use im_service.Core.Command.{default_version, msg_group_im, msg_sync_notify, message_flag_push}
use im_service.Im.Route.{Client, AppRoute, find_route, find_client_set}
use im_service.Im.GroupMessageDeliver.Send.Defs.{Effect, queue_for, send_message, send_member}
use im_service.Im.GroupMessageDeliver.Send.Told.{told}

module _ (gm : PendingGroupMessage) where
  -- The message of the group, with a flag and ids.
  abbrev pub due_message : ℕ → Option Metadata → Message
  due_message flag ids =
      Message.message msg_group_im 0 default_version flag
        (Body.im_message (record {
          sender = gm.sender;
          receiver = gm.gid;
          timestamp = gm.timestamp;
          msgid = 0;
          content = gm.content;
        }))
        ids

  abbrev pub due_notice : ℕ → Message
  due_notice msgid = Message.message msg_sync_notify 0 0 0 (Body.sync_key msgid) none

  -- A message for all of the user's clients but the sender's own device.
  unfoldable pub to_clients : ℕ → Message → List Client → List Effect
  to_clients u m [] = []
  to_clients u m (c ∷ cs) =
      if u == gm.sender && c.device_id == gm.device_id
      then to_clients u m cs
      else Effect.queued c.id m ∷ to_clients u m cs

  unfoldable pub clients_of : AppRoute → ℕ → List Client
  clients_of app_route u = elim (find_route gm.appid app_route) [
    | none ↦ []
    | some route ↦ find_client_set u route
  ]

  unfoldable pub due : AppRoute → List (ℕ × Metadata) → List Effect
  due app_route [] = []
  due app_route ((u, ids) ∷ l) =
      let message = due_message message_flag_push (some ids) in
      let notice = due_notice ids.sync_key in
      (Effect.published gm.appid u message ∷ to_clients u message (clients_of app_route u))
      ++ (Effect.published gm.appid u notice ∷ to_clients u notice (clients_of app_route u))
      ++ due app_route l

  queue_for-to_clients :
      (u : ℕ) (m : Message) (set : List Client)
      → queue_for u gm.sender gm.device_id m set ≡ to_clients u m set
  unfolding queue_for to_clients
  queue_for-to_clients u m [] = refl
  queue_for-to_clients u m (c ∷ set) = ground (arith, queue_for-to_clients u m set)

  send_message-to_clients :
      (app_route : AppRoute) (u : ℕ) (m : Message)
      → send_message app_route gm.appid u gm.sender gm.device_id m
        ≡ Effect.published gm.appid u m ∷ to_clients u m (clients_of app_route u)
  unfolding send_message clients_of
  send_message-to_clients app_route u m =
      ap (◌∷◌ (Effect.published gm.appid u m))
        (elim (find_route gm.appid app_route)
          as (λ r.
            (elim r [
              | none ↦ []
              | some route ↦ queue_for u gm.sender gm.device_id m (find_client_set u route)
            ])
            ≡ to_clients u m (elim r [ none ↦ [] | some route ↦ find_client_set u route ])) [
              | none ↦ unfold to_clients in refl
              | some route ↦ queue_for-to_clients u m (find_client_set u route)
            ])

  pub told-due :
      (app_route : AppRoute) (l : List (ℕ × Metadata)) → told gm app_route l ≡ due app_route l
  unfolding told due send_member
  told-due app_route [] = refl
  told-due app_route ((u, ids) ∷ l) =
      let message = due_message message_flag_push (some ids) in
      let notice = due_notice ids.sync_key in
      rw
        (
          send_message-to_clients app_route u message,
          send_message-to_clients app_route u notice,
          told-due app_route l,
        )
        refl
