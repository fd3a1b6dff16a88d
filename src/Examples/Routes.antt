-- ===== src/Examples/Routes.antt =====
-- User 5 of app 7 connects twice, the first time without being online, and user 6 once. Then the first
-- connection ends.
use im_service.Prelude.{
  ◌≡◌, refl, true, false, List, [], ◌∷◌, ◌++◌, some, none, arith, ltb, if◌then◌else◌,
}
use im_service.Prelude.Maps.{value_at, put, delete}
use im_service.Core.Body.{Message, Body, Nested, AppHeader}
use im_service.Core.Command.{msg_subscribe, msg_im, msg_publish}
use im_service.Core.Decode.{ok}
use im_service.Im.Channel.Defs.{
  Channel, new_channel, subscribe, unsubscribe, subscribe_body, add_subscribe, remove_subscribe,
  remove_uid, subscriber_of, set_subscriber, pack, write, publish,
}
use im_service.Im.Channel.Counts.{Connection, here, there, total}
use im_service.Im.Channel.Connected.{numbered, run_once}
use im_service.Im.Channel.Subscribed.{Counted}
use im_service.Imr.Client.Defs.{Client, Server, new_client, handle_messages, forward}
use im_service.Imr.Client.Flags.{find_client}
use im_service.Imr.Agreement.Calls.{Connects, start, on, off, Connects-Counted}
use im_service.Imr.Agreement.Views.{
  Agrees, subscribe-handle_messages, run_once-handle_messages, publish-handle_message,
}

abbrev phone : Connection
phone = record { appid = 7; uid = 5; online = false }

abbrev desk : Connection
desk = record { appid = 7; uid = 5; online = true }

abbrev other : Connection
other = record { appid = 7; uid = 6; online = true }

abbrev channel : Channel
channel =
    unsubscribe 7 5 false
      (subscribe 7 6 true (subscribe 7 5 true (subscribe 7 5 false new_channel)))

abbrev live : List Connection
live = other ∷ desk ∷ []

connects : Connects live channel
connects =
    off phone (on other (on desk (on phone start (omega arith)) (omega arith)) (omega arith))
      (there other (there desk here))

abbrev server : Server
server = record { clients = new_client 1 ∷ new_client 2 ∷ []; is_push_system = false; pushed = [] }

finds_second : find_client 2 server.clients ≡ some (new_client 2)
unfolding find_client
finds_second = refl

abbrev first_sent : List Message
first_sent = Message.message msg_subscribe 0 0 0 (subscribe_body 7 5 false) none ∷ []

abbrev last_sent : List Message
last_sent =
    Message.message msg_subscribe 0 0 0 (subscribe_body 7 5 true) none
    ∷ Message.message msg_subscribe 0 0 0 (subscribe_body 7 6 true) none
    ∷ []

sent_in_order : channel.wt ≡ first_sent ++ last_sent
unfolding subscribe unsubscribe remove_subscribe remove_uid add_subscribe subscriber_of
    set_subscriber pack write value_at put delete
sent_in_order = refl

subscribe-handle_messages_example : Agrees 2 live (numbered 4 channel.wt) server
subscribe-handle_messages_example = subscribe-handle_messages 2 4 server connects finds_second

run_once-handle_messages_example : Agrees 2 live (run_once channel last_sent) server
run_once-handle_messages_example =
    run_once-handle_messages 2 first_sent last_sent server connects sent_in_order finds_second

abbrev header : AppHeader
header = record {
  appid = 7;
  receiver = 5;
  msgid = 90;
  prev_msgid = 80;
  device_id = 3;
  timestamp = 1000;
}

abbrev hello : Message
hello = Message.message msg_im 0 0 0 Body.no_body none

publish-handle_message_example :
    (s1 : Server) × (s2 : Server) × (d : Client) × (handle_messages 2 (numbered 4 channel.wt) server
      ≡ ok s1)
    × (handle_messages 1 (publish header (Nested.ref hello) new_channel).wt s1 ≡ ok s2)
    × (find_client 2 s2.clients ≡ some d)
    × (d.wt ≡ (
        if ltb 0 (total 7 5 live) then forward msg_publish header (Nested.ref hello) ∷ [] else []))
publish-handle_message_example =
    publish-handle_message 1 2 4 header hello server refl connects finds_second

Connects-Counted_example : Counted live channel
Connects-Counted_example = Connects-Counted connects
