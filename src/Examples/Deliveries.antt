-- ===== src/Examples/Deliveries.antt =====
-- Group messages of two members, sent through storage servers that answer, or that fail at times.
use im_service.Prelude.{
  ℕ, ◌+◌, ◌*◌, ◌%◌, ◌≡◌, refl, List, [], ◌∷◌, ◌++◌, Option, none, some, map, length, All,
  if◌then◌else◌, ◌==◌, arith,
}
use mathlib.Core.List.Perm
use im_service.Prelude.Bytes.{write_be}
use im_service.Prelude.Maps.{Map, put, delete, value_at}
use im_service.Core.Body.{Metadata, PendingGroupMessage}
use im_service.Core.Encode.{write_message}
use im_service.Core.Decode.{ok, ◌>>=◌}
use im_service.Im.Group.{new_group}
use im_service.Im.GroupMessageDeliver.Defs.{
  Deliver, new_deliver, pending_record, flush_pending_message,
}
use im_service.Im.GroupMessageDeliver.Records.{IsPending, records_of, pending_message}
use im_service.Im.GroupMessageDeliver.Waiting.{Waits}
use im_service.Im.GroupMessageDeliver.Runs.{Event, saves, run, Delivered, Reached}
use im_service.Im.GroupMessageDeliver.Sequences.{run-Reached}
use im_service.Im.GroupMessageDeliver.Send.Defs.{
  Effect, Net, batch_members, group_members, send_group_message, send_batches, send_members,
  save_peer_group_message, storage_rpc_index,
}
use im_service.Im.GroupMessageDeliver.Send.Due.{due, due_message}
use im_service.Im.GroupMessageDeliver.Send.Servers.{apart_in}
use im_service.Im.GroupMessageDeliver.Send.Told.{
  given, assigned, sent, pushes, ids_of, occurs, members_of,
}
use im_service.Im.GroupMessageDeliver.Send.Members.{send_group_message-members}
use im_service.Im.GroupMessageDeliver.Send.Answers.{flush-send_group_message}

abbrev to_group : PendingGroupMessage
to_group = record {
  appid = 7;
  sender = 12;
  device_id = 3;
  gid = 9;
  timestamp = 1600000000;
  members = 12 ∷ 14 ∷ [];
  content = 104 ∷ 105 ∷ [];
}

to_group-size : length (write_message (pending_message to_group)) ≡ 68
unfolding write_message write_be
to_group-size = refl

to_group-IsPending : IsPending to_group
to_group-IsPending = (
  record {
    appid = omega arith;
    sender = omega arith;
    device_id = omega arith;
    gid = omega arith;
    timestamp = omega arith;
    members = omega arith;
    count = omega arith;
  },
  omega (arith, to_group-size),
)

abbrev events : List Event
events =
    Event.save to_group (some 1)
    ∷ Event.flush
    ∷ Event.restart
    ∷ Event.save to_group none
    ∷ Event.flush
    ∷ []

events-IsPending : All IsPending (saves events)
unfolding saves
events-IsPending = (to_group-IsPending, (to_group-IsPending, tt))

events-size : length (records_of (saves events)) ≡ 168
unfolding saves records_of pending_record write_message write_be
events-size = refl

-- Every second call fails.
abbrev unreliable : PendingGroupMessage → ℕ → ℕ × Option Metadata
unreliable g n =
    (n + 1, if n % 2 == 0 then none else some (record { sync_key = n; prev_sync_key = 0 }))

run-Reached_example :
    (s : Deliver ℕ) × ((do s0 ← new_deliver [] [] [] 0; run unreliable events s0) ≡ ok s)
    × Reached unreliable 0 (saves events) s
run-Reached_example = run-Reached unreliable 0 events events-IsPending (omega (arith, events-size))

-- Storage that numbers the messages of all users.
abbrev numbers : ℕ → List ℕ → List ℕ
numbers n [] = []
numbers n (u ∷ us) = n ∷ 0 ∷ numbers (n + 1) us

numbers-length : (n : ℕ) (us : List ℕ) → length (numbers n us) ≡ length us * 2
numbers-length n [] = refl
numbers-length n (u ∷ us) = omega (arith, numbers-length (n + 1) us)

abbrev answering : ℕ → List ℕ → ℕ → ℕ → List ℕ → ℕ → ℕ × Option (List ℕ)
answering appid mb device_id cmd raw n = (n + length mb, some (numbers n mb))

-- User 14 is connected to this server.
abbrev network : Net ℕ
network = record {
  storages = 100;
  app_route =
      (
        7,
        record {
          clients = (14, record { id = 5; uid = 14; device_id = 8 } ∷ []) ∷ [];
          room_clients = [];
        },
      )
      ∷ [];
  out = [];
}

abbrev in_order : Map (List ℕ) → List (List ℕ)
in_order m = map (λ e. e.1) m

abbrev sender_ids : Metadata
sender_ids = record { sync_key = 100; prev_sync_key = 0 }

to_group-sent : (send_group_message to_group answering 2 in_order network).1 ≡ some sender_ids
unfolding send_group_message send_batches save_peer_group_message send_members put delete value_at
    batch_members storage_rpc_index
to_group-sent = refl

send_group_message-members_example :
    let r = (send_group_message to_group answering 2 in_order network).0 in
    (new : List Effect) × (r.out ≡ network.out ++ new)
    × (sent new ≡ due to_group network.app_route (assigned new))
    × (apart_in 2 (given new) ≡ 0)
    × ((u : ℕ) → occurs u (members_of (assigned new)) ≡ occurs u to_group.members)
    × (sender_ids ≡ ids_of 12 (assigned new) (record { sync_key = 0; prev_sync_key = 0 }))
    × (pushes new
        ≡ Effect.pushed 7
            (new_group 9 7 (group_members to_group.members []))
            (due_message to_group 0 none)
          ∷ [])
send_group_message-members_example =
    send_group_message-members to_group answering 2 in_order network sender_ids
      (λ m. Perm.refl (in_order m)) to_group-sent

flush-send_group_message_example :
    (s : Deliver (Net ℕ)) × ((do
      s0 ← new_deliver [] [] [] network
      s1 ← run (λ gm. send_group_message gm answering 2 in_order) events s0
      flush_pending_message (λ gm. send_group_message gm answering 2 in_order) s1)
      ≡ ok s)
    × Delivered (λ gm. send_group_message gm answering 2 in_order) network (saves events) [] s.net
    × Waits s []
flush-send_group_message_example =
    flush-send_group_message answering
      (λ appid mb device_id cmd raw n. (numbers n mb, refl, numbers-length n mb)) 2 in_order network
      events events-IsPending (omega (arith, events-size))
