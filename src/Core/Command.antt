-- ===== src/Core/Command.antt =====
-- The command numbers of core/message.go, core/storage_message.go and core/route_message.go, the
-- tables that say which body a command carries, and which commands a client may send.
use im_service.Prelude.{ℕ, Bool, ◌||◌, Option, none, some, ◌==◌, if◌then◌else◌}

abbrev pub msg_auth_status : ℕ
msg_auth_status = 3

abbrev pub msg_im : ℕ
msg_im = 4

abbrev pub msg_ack : ℕ
msg_ack = 5

abbrev pub msg_group_notification : ℕ
msg_group_notification = 7

abbrev pub msg_group_im : ℕ
msg_group_im = 8

abbrev pub msg_ping : ℕ
msg_ping = 13

abbrev pub msg_pong : ℕ
msg_pong = 14

abbrev pub msg_auth_token : ℕ
msg_auth_token = 15

abbrev pub msg_rt : ℕ
msg_rt = 17

abbrev pub msg_enter_room : ℕ
msg_enter_room = 18

abbrev pub msg_leave_room : ℕ
msg_leave_room = 19

abbrev pub msg_room_im : ℕ
msg_room_im = 20

abbrev pub msg_system : ℕ
msg_system = 21

abbrev pub msg_unread_count : ℕ
msg_unread_count = 22

abbrev pub msg_customer_service : ℕ
msg_customer_service = 23

abbrev pub msg_customer : ℕ
msg_customer = 24

abbrev pub msg_customer_support : ℕ
msg_customer_support = 25

abbrev pub msg_sync : ℕ
msg_sync = 26

abbrev pub msg_sync_begin : ℕ
msg_sync_begin = 27

abbrev pub msg_sync_end : ℕ
msg_sync_end = 28

abbrev pub msg_sync_notify : ℕ
msg_sync_notify = 29

abbrev pub msg_sync_group : ℕ
msg_sync_group = 30

abbrev pub msg_sync_group_begin : ℕ
msg_sync_group_begin = 31

abbrev pub msg_sync_group_end : ℕ
msg_sync_group_end = 32

abbrev pub msg_sync_group_notify : ℕ
msg_sync_group_notify = 33

abbrev pub msg_sync_key : ℕ
msg_sync_key = 34

abbrev pub msg_group_sync_key : ℕ
msg_group_sync_key = 35

abbrev pub msg_notification : ℕ
msg_notification = 36

abbrev pub msg_metadata : ℕ
msg_metadata = 37

abbrev pub msg_voip_control : ℕ
msg_voip_control = 64

abbrev pub msg_subscribe : ℕ
msg_subscribe = 130

abbrev pub msg_unsubscribe : ℕ
msg_unsubscribe = 131

abbrev pub msg_publish : ℕ
msg_publish = 132

abbrev pub msg_push : ℕ
msg_push = 134

abbrev pub msg_publish_group : ℕ
msg_publish_group = 135

abbrev pub msg_subscribe_room : ℕ
msg_subscribe_room = 136

abbrev pub msg_unsubscribe_room : ℕ
msg_unsubscribe_room = 137

abbrev pub msg_publish_room : ℕ
msg_publish_room = 138

abbrev pub msg_storage_sync_begin : ℕ
msg_storage_sync_begin = 220

abbrev pub msg_storage_sync_message : ℕ
msg_storage_sync_message = 221

abbrev pub msg_storage_sync_message_batch : ℕ
msg_storage_sync_message_batch = 222

abbrev pub msg_group_offline : ℕ
msg_group_offline = 247

abbrev pub msg_offline_v4 : ℕ
msg_offline_v4 = 248

abbrev pub msg_offline_v3 : ℕ
msg_offline_v3 = 249

abbrev pub msg_offline_v2 : ℕ
msg_offline_v2 = 250

abbrev pub msg_pending_group_message : ℕ
msg_pending_group_message = 251

abbrev pub msg_group_im_list : ℕ
msg_group_im_list = 252

abbrev pub msg_group_ack_in : ℕ
msg_group_ack_in = 253

abbrev pub msg_offline : ℕ
msg_offline = 254

abbrev pub msg_ack_in : ℕ
msg_ack_in = 255

abbrev pub message_flag_text : ℕ
message_flag_text = 0x01

abbrev pub message_flag_self : ℕ
message_flag_self = 0x08

-- `DEFAULT_VERSION` of protocol.go.
abbrev pub default_version : ℕ
default_version = 2

abbrev pub message_flag_push : ℕ
message_flag_push = 0x10

abbrev pub message_flag_group : ℕ
message_flag_group = 0x04

-- The classes that `message_creators` makes.
pub data Kind : Type 0 where
  group_notification authentication_token rt_message room room_message system_message : Kind
  unread_count ignore_message customer_message sync_key group_sync_key metadata : Kind
  voip_control authentication_status offline1 offline2 offline3 offline4 group_offline : Kind
  pending_group sync_cursor emessage message_batch subscribe app_user_id app_room_id : Kind
  app_message batch_push : Kind

-- The classes that `vmessage_creators` makes.
pub data VersionKind : Type 0 where
  message_ack im_message : VersionKind

-- The part of the table `message_creators` that core/message.go fills.
client_creators : ℕ → Option Kind
client_creators c =
    if c == msg_group_notification
    then some group_notification
    else if c == msg_auth_token
    then some authentication_token
    else if c == msg_rt
    then some rt_message
    else if c == msg_enter_room
    then some room
    else if c == msg_leave_room
    then some room
    else if c == msg_room_im
    then some room_message
    else if c == msg_system
    then some system_message
    else if c == msg_unread_count
    then some unread_count
    else if c == msg_customer_service
    then some ignore_message
    else if c == msg_customer
    then some customer_message
    else if c == msg_customer_support
    then some customer_message
    else if c == msg_sync
    then some sync_key
    else if c == msg_sync_begin
    then some sync_key
    else if c == msg_sync_end
    then some sync_key
    else if c == msg_sync_key
    then some sync_key
    else if c == msg_sync_group
    then some group_sync_key
    else if c == msg_sync_group_begin
    then some group_sync_key
    else if c == msg_sync_group_end
    then some group_sync_key
    else if c == msg_group_sync_key
    then some group_sync_key
    else if c == msg_sync_notify
    then some sync_key
    else if c == msg_sync_group_notify
    then some group_sync_key
    else if c == msg_notification
    then some system_message
    else if c == msg_metadata
    then some metadata
    else if c == msg_voip_control
    then some voip_control
    else if c == msg_auth_status
    then some authentication_status
    else none

-- The part that core/storage_message.go fills.
storage_creators : ℕ → Option Kind
storage_creators c =
    if c == msg_group_offline
    then some offline4
    else if c == msg_offline_v4
    then some offline4
    else if c == msg_offline_v3
    then some offline3
    else if c == msg_offline_v2
    then some offline2
    else if c == msg_pending_group_message
    then some pending_group
    else if c == msg_group_im_list
    then some group_offline
    else if c == msg_group_ack_in
    then some ignore_message
    else if c == msg_offline
    then some offline1
    else if c == msg_ack_in
    then some ignore_message
    else if c == msg_storage_sync_begin
    then some sync_cursor
    else if c == msg_storage_sync_message
    then some emessage
    else if c == msg_storage_sync_message_batch
    then some message_batch
    else none

-- The part that core/route_message.go fills.
route_creators : ℕ → Option Kind
route_creators c =
    if c == msg_subscribe
    then some subscribe
    else if c == msg_unsubscribe
    then some app_user_id
    else if c == msg_publish
    then some app_message
    else if c == msg_push
    then some batch_push
    else if c == msg_publish_group
    then some app_message
    else if c == msg_subscribe_room
    then some app_room_id
    else if c == msg_unsubscribe_room
    then some app_room_id
    else if c == msg_publish_room
    then some app_message
    else none

abbrev or_else : Option Kind → Option Kind → Option Kind
or_else (some k) o = some k
or_else none o = o

unfoldable pub message_creators : ℕ → Option Kind
unfolding client_creators storage_creators route_creators
message_creators c = or_else (client_creators c) (or_else (storage_creators c) (route_creators c))

unfoldable pub vmessage_creators : ℕ → Option VersionKind
vmessage_creators c =
    if c == msg_ack
    then some message_ack
    else if c == msg_group_im
    then some im_message
    else if c == msg_im
    then some im_message
    else none

-- `external_messages`: the commands that a client may send.
unfoldable pub external_messages : ℕ → Bool
external_messages c =
    c == msg_auth_token
    || c == msg_im
    || c == msg_ack
    || c == msg_group_im
    || c == msg_ping
    || c == msg_pong
    || c == msg_rt
    || c == msg_enter_room
    || c == msg_leave_room
    || c == msg_room_im
    || c == msg_unread_count
    || c == msg_customer
    || c == msg_customer_support
    || c == msg_sync
    || c == msg_sync_group
    || c == msg_sync_key
    || c == msg_group_sync_key
    || c == msg_metadata
