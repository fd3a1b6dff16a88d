-- ===== src/Core/Total.antt =====
-- The decoder ends: its fuel, the length of the input, is always enough.
use im_service.Prelude.{
  ℕ, zero, suc, ◌+◌, ◌*◌, ◌≤◌, ◌<◌, ◌≡◌, refl, Bool, true, false, not, ◌&&◌, ◌||◌, arith, length,
  take, drop, ltb, leb, ◌==◌, Option-cases, inl, inr, length-drop, length-take-le_length,
  if◌then◌else◌,
}
use im_service.Prelude.Bytes.{Bytes, read_be, neg16, neg32, neg64}
use im_service.Core.Body.{Message, Body}
use im_service.Core.Command.{
  Kind, VersionKind, message_creators, vmessage_creators, external_messages,
}
use im_service.Core.Decode.{
  Outcome, ok, refused, panic, ◌>>=◌, read_short_string, read_authentication_token, read_integer,
  read_rt_message, read_im_message_v0, read_im_message_v1, read_im_message, read_message_ack,
  read_customer_message, read_voip_control, read_app_user_id, read_app_room_id, read_group_sync_key,
  read_metadata, read_subscribe, read_offline1, read_offline2, read_offline3, read_offline4,
  read_group_offline, read_uids, read_pending_group, read_app_header, receive_batch, receive_short,
  read_emessage, read_message_batch, read_app_message, read_batch_push, from_data_kind,
  from_data_version, from_data, receive_limit_message, receive_limit, receive_message,
  receive_client_message, receive_storage_sync_message, receive_storage_message, read_header,
  Header,
}

data IsDone {ℓ} {A : Type ℓ} : Outcome A → Type ℓ where
  done_ok : (a : A) → IsDone (ok a)
  done_refused : IsDone refused
  done_panic : IsDone panic

-- It ends, and a message leaves no more than `n` bytes.
pub data Ends (n : ℕ) : Outcome (Message × Bytes) → Type 0 where
  ends_ok : (m : Message) (rest : Bytes) → length rest ≤ n → Ends n (ok (m, rest))
  ends_refused : Ends n refused
  ends_panic : Ends n panic

IsDone-bind {ℓ κ} :
    {A : Type ℓ} {B : Type κ} (m : Outcome A) (f : A → Outcome B)
    → IsDone m
    → ((a : A) → IsDone (f a))
    → IsDone (m >>= f)
IsDone-bind _ f (done_ok a) k = k a
IsDone-bind _ f done_refused k = done_refused
IsDone-bind _ f done_panic k = done_panic

Ends-bind {ℓ} :
    {B : Type ℓ} (n : ℕ) (m : Outcome (Message × Bytes)) (f : Message × Bytes → Outcome B)
    → Ends n m
    → ((x : Message) (rest : Bytes) → length rest ≤ n → IsDone (f (x, rest)))
    → IsDone (m >>= f)
Ends-bind n _ f (ends_ok x rest h) k = k x rest h
Ends-bind n _ f ends_refused k = done_refused
Ends-bind n _ f ends_panic k = done_panic

IsDone-if {ℓ} :
    {A : Type ℓ} (b : Bool) (x y : Outcome A) → IsDone x → IsDone y → IsDone (if b then x else y)
IsDone-if true x y hx hy = hx
IsDone-if false x y hx hy = hy

length-read_be-le : (k old : ℕ) (buf : Bytes) → length (read_be k old buf).1 ≤ length buf
unfolding read_be
length-read_be-le k old buf = omega (arith, length-drop k buf)

read_rt_message-IsDone : (buff : Bytes) → IsDone (read_rt_message buff)
unfolding read_rt_message
read_rt_message-IsDone buff = IsDone-if _ refused _ done_refused (done_ok _)

read_customer_message-IsDone : (buff : Bytes) → IsDone (read_customer_message buff)
unfolding read_customer_message
read_customer_message-IsDone buff = IsDone-if _ refused _ done_refused (done_ok _)

read_voip_control-IsDone : (buff : Bytes) → IsDone (read_voip_control buff)
unfolding read_voip_control
read_voip_control-IsDone buff = IsDone-if _ refused _ done_refused (done_ok _)

read_app_user_id-IsDone : (buff : Bytes) → IsDone (read_app_user_id buff)
unfolding read_app_user_id
read_app_user_id-IsDone buff = IsDone-if _ refused _ done_refused (done_ok _)

read_app_room_id-IsDone : (buff : Bytes) → IsDone (read_app_room_id buff)
unfolding read_app_room_id
read_app_room_id-IsDone buff = IsDone-if _ refused _ done_refused (done_ok _)

read_group_sync_key-IsDone : (buff : Bytes) → IsDone (read_group_sync_key buff)
unfolding read_group_sync_key
read_group_sync_key-IsDone buff = IsDone-if _ refused _ done_refused (done_ok _)

read_metadata-IsDone : (buff : Bytes) → IsDone (read_metadata buff)
unfolding read_metadata
read_metadata-IsDone buff = IsDone-if _ refused _ done_refused (done_ok _)

read_subscribe-IsDone : (buff : Bytes) → IsDone (read_subscribe buff)
unfolding read_subscribe
read_subscribe-IsDone buff = IsDone-if _ refused _ done_refused (done_ok _)

read_offline1-IsDone : (buff : Bytes) → IsDone (read_offline1 buff)
unfolding read_offline1
read_offline1-IsDone buff = IsDone-if _ refused _ done_refused (done_ok _)

read_offline2-IsDone : (buff : Bytes) → IsDone (read_offline2 buff)
unfolding read_offline2
read_offline2-IsDone buff = IsDone-if _ refused _ done_refused (done_ok _)

read_offline3-IsDone : (buff : Bytes) → IsDone (read_offline3 buff)
unfolding read_offline3
read_offline3-IsDone buff = IsDone-if _ refused _ done_refused (done_ok _)

read_offline4-IsDone : (buff : Bytes) → IsDone (read_offline4 buff)
unfolding read_offline4
read_offline4-IsDone buff = IsDone-if _ refused _ done_refused (done_ok _)

read_group_offline-IsDone : (buff : Bytes) → IsDone (read_group_offline buff)
unfolding read_group_offline
read_group_offline-IsDone buff = IsDone-if _ refused _ done_refused (done_ok _)

read_integer-IsDone : (k : ℕ) (buff : Bytes) → IsDone (read_integer k buff)
unfolding read_integer
read_integer-IsDone k buff = IsDone-if _ refused _ done_refused (done_ok _)

read_short_string-IsDone : (old : ℕ) (buf : Bytes) → IsDone (read_short_string old buf)
unfolding read_short_string
read_short_string-IsDone old buf = IsDone-if _ refused _ done_refused (done_ok _)

read_authentication_token-IsDone : (buff : Bytes) → IsDone (read_authentication_token buff)
unfolding read_authentication_token
read_authentication_token-IsDone buff = IsDone-if _ refused _ done_refused (
    IsDone-bind (read_short_string 0 (read_be 1 0 buff).1) _ (read_short_string-IsDone 0 _) λ x.
      IsDone-bind (read_short_string x.1 x.2) _ (read_short_string-IsDone x.1 x.2) (λ y. done_ok _))

read_pending_group-IsDone : (buff : Bytes) → IsDone (read_pending_group buff)
unfolding read_pending_group
read_pending_group-IsDone buff = search (IsDone-if, done_ok, done_refused, done_panic)

from_data_version-IsDone :
    (k : VersionKind) (version : ℕ) (buff : Bytes) → IsDone (from_data_version k version buff)
unfolding from_data_version read_message_ack read_im_message read_im_message_v0 read_im_message_v1
from_data_version-IsDone VersionKind.message_ack version buff = done_ok _
from_data_version-IsDone VersionKind.im_message version buff =
    IsDone-bind (read_im_message version buff) _
      (IsDone-if _ _ _ (IsDone-if _ refused _ done_refused (done_ok _))
        (IsDone-if _ refused _ done_refused (done_ok _)))
      (λ m. done_ok _)

module _ (receive : Bytes → Outcome (Message × Bytes)) (n : ℕ)
    (ends : (b : Bytes) → length b ≤ n → Ends (length b) (receive b)) where
  receive_batch-IsDone :
      (count : ℕ) (buf : Bytes) → length buf ≤ n → IsDone (receive_batch receive count buf)
  unfolding receive_batch
  receive_batch-IsDone zero buf h = done_ok _
  receive_batch-IsDone (suc count) buf h =
      Ends-bind (length buf) (receive buf) _ (ends buf h) λ m rest hr.
        IsDone-bind (receive_batch receive count rest) _
          (receive_batch-IsDone count rest (omega arith)) (λ ms. done_ok _)

  receive_short-IsDone :
      (negative : Outcome Message) (buf : Bytes)
      → IsDone negative
      → length buf ≤ n
      → IsDone (receive_short receive negative buf)
  unfolding receive_short
  receive_short-IsDone negative buf hn h =
      let l = (read_be 2 0 buf).0 in
      let rest = (read_be 2 0 buf).1 in
      let short : length (take l rest) ≤ length rest = length-take-le_length l rest in
      let fewer : length rest ≤ length buf = length-read_be-le 2 0 buf in
      IsDone-if (neg16 l) negative _ hn (
        IsDone-if (ltb (length rest) l) refused _ done_refused (
          Ends-bind (length (take l rest)) (receive (take l rest)) _
            (ends (take l rest) (omega arith)) (λ m r hr. done_ok _)))

  read_uids-le : (count : ℕ) (buf : Bytes) → length (read_uids count buf).1 ≤ length buf
  unfolding read_uids
  read_uids-le zero buf = omega arith
  read_uids-le (suc count) buf =
      omega (arith, read_uids-le count (read_be 8 0 buf).1, length-read_be-le 8 0 buf)

  read_app_header-le : (buf : Bytes) → length (read_app_header buf).1 ≤ length buf
  unfolding read_app_header
  read_app_header-le buf = omega (arith, length-read_be-le)

  -- Every body is decoded to the end.
  from_data_kind-IsDone :
      (k : Kind) (buff : Bytes) → length buff ≤ n → IsDone (from_data_kind receive k buff)
  unfolding from_data_kind read_emessage read_message_batch read_app_message read_batch_push
  from_data_kind-IsDone Kind.group_notification buff h = done_ok _
  from_data_kind-IsDone Kind.system_message buff h = done_ok _
  from_data_kind-IsDone Kind.ignore_message buff h = done_ok _
  from_data_kind-IsDone Kind.emessage buff h =
      IsDone-if (ltb (length buff) 18) refused _ done_refused (
        IsDone-bind (receive_short receive panic (read_be 8 0 (read_be 8 0 buff).1).1) _
          (receive_short-IsDone panic _ done_panic (omega (arith, h, length-read_be-le)))
          (λ m. done_ok _))
  from_data_kind-IsDone Kind.message_batch buff h =
      let (count, b3) = read_be 4 0 (read_be 8 0 (read_be 8 0 buff).1).1 in
      IsDone-if (ltb (length buff) 18) refused _ done_refused (
        IsDone-if (neg32 count) panic _ done_panic (
          IsDone-bind (receive_batch receive count b3) _
            (receive_batch-IsDone count b3 (omega (arith, h, length-read_be-le)))
            (λ ms. done_ok _)))
  from_data_kind-IsDone Kind.app_message buff h =
      IsDone-if (ltb (length buff) 42) refused _ done_refused (
        IsDone-bind (receive_short receive refused (read_app_header buff).1) _
          (receive_short-IsDone refused _ done_refused (omega (arith, h, read_app_header-le buff)))
          (λ m. done_ok _))
  from_data_kind-IsDone Kind.batch_push buff h =
      let (count, b2) = read_be 2 0 (read_be 8 0 buff).1 in
      IsDone-if (ltb (length buff) 12) refused _ done_refused (
        IsDone-if (ltb (length buff) (8 + 2 + count * 8 + 2)) refused _ done_refused (
          IsDone-bind (receive_short receive refused (read_uids count b2).1) _
            (receive_short-IsDone refused _ done_refused
              (omega (arith, h, read_uids-le count b2, length-read_be-le)))
            (λ m. done_ok _)))
  from_data_kind-IsDone Kind.rt_message buff h =
      IsDone-bind (read_rt_message buff) _ (read_rt_message-IsDone buff) (λ x. done_ok _)
  from_data_kind-IsDone Kind.customer_message buff h =
      IsDone-bind (read_customer_message buff) _ (read_customer_message-IsDone buff)
        (λ x. done_ok _)
  from_data_kind-IsDone Kind.voip_control buff h =
      IsDone-bind (read_voip_control buff) _ (read_voip_control-IsDone buff) (λ x. done_ok _)
  from_data_kind-IsDone Kind.app_user_id buff h =
      IsDone-bind (read_app_user_id buff) _ (read_app_user_id-IsDone buff) (λ x. done_ok _)
  from_data_kind-IsDone Kind.app_room_id buff h =
      IsDone-bind (read_app_room_id buff) _ (read_app_room_id-IsDone buff) (λ x. done_ok _)
  from_data_kind-IsDone Kind.group_sync_key buff h =
      IsDone-bind (read_group_sync_key buff) _ (read_group_sync_key-IsDone buff) (λ x. done_ok _)
  from_data_kind-IsDone Kind.metadata buff h =
      IsDone-bind (read_metadata buff) _ (read_metadata-IsDone buff) (λ x. done_ok _)
  from_data_kind-IsDone Kind.subscribe buff h =
      IsDone-bind (read_subscribe buff) _ (read_subscribe-IsDone buff) (λ x. done_ok _)
  from_data_kind-IsDone Kind.offline1 buff h =
      IsDone-bind (read_offline1 buff) _ (read_offline1-IsDone buff) (λ x. done_ok _)
  from_data_kind-IsDone Kind.offline2 buff h =
      IsDone-bind (read_offline2 buff) _ (read_offline2-IsDone buff) (λ x. done_ok _)
  from_data_kind-IsDone Kind.offline3 buff h =
      IsDone-bind (read_offline3 buff) _ (read_offline3-IsDone buff) (λ x. done_ok _)
  from_data_kind-IsDone Kind.offline4 buff h =
      IsDone-bind (read_offline4 buff) _ (read_offline4-IsDone buff) (λ x. done_ok _)
  from_data_kind-IsDone Kind.group_offline buff h =
      IsDone-bind (read_group_offline buff) _ (read_group_offline-IsDone buff) (λ x. done_ok _)
  from_data_kind-IsDone Kind.room_message buff h =
      IsDone-bind (read_rt_message buff) _ (read_rt_message-IsDone buff) (λ x. done_ok _)
  from_data_kind-IsDone Kind.authentication_token buff h =
      IsDone-bind (read_authentication_token buff) _ (read_authentication_token-IsDone buff)
        (λ x. done_ok _)
  from_data_kind-IsDone Kind.pending_group buff h =
      IsDone-bind (read_pending_group buff) _ (read_pending_group-IsDone buff) (λ x. done_ok _)
  from_data_kind-IsDone Kind.room buff h =
      IsDone-bind (read_integer 8 buff) _ (read_integer-IsDone 8 buff) (λ x. done_ok _)
  from_data_kind-IsDone Kind.unread_count buff h =
      IsDone-bind (read_integer 4 buff) _ (read_integer-IsDone 4 buff) (λ x. done_ok _)
  from_data_kind-IsDone Kind.sync_key buff h =
      IsDone-bind (read_integer 8 buff) _ (read_integer-IsDone 8 buff) (λ x. done_ok _)
  from_data_kind-IsDone Kind.authentication_status buff h =
      IsDone-bind (read_integer 4 buff) _ (read_integer-IsDone 4 buff) (λ x. done_ok _)
  from_data_kind-IsDone Kind.sync_cursor buff h =
      IsDone-bind (read_integer 8 buff) _ (read_integer-IsDone 8 buff) (λ x. done_ok _)

  from_data-IsDone :
      (c v : ℕ) (buff : Bytes) → length buff ≤ n → IsDone (from_data receive c v buff)
  unfolding from_data
  from_data-IsDone c v buff h = elim (Option-cases (message_creators c)) [
    | inr (k, e) ↦ rw (e, from_data) (from_data_kind-IsDone k buff h)
    | inl e ↦ elim (Option-cases (vmessage_creators c)) [
      | inr (k, e') ↦ rw (e, e', from_data) (from_data_version-IsDone k v buff)
      | inl e' ↦
          rw (e, e', from_data) (IsDone-if (length buff == 0) _ refused (done_ok _) done_refused)
    ]
  ]

Ends-if :
    (n : ℕ) (b : Bool) (x y : Outcome (Message × Bytes))
    → Ends n x
    → (b ≡ false → Ends n y)
    → Ends n (if b then x else y)
Ends-if n true x y hx hy = hx
Ends-if n false x y hx hy = hy refl

Ends-map :
    (n : ℕ) (m : Outcome Body) (f : Body → Message) (rest : Bytes)
    → IsDone m
    → length rest ≤ n
    → Ends n (m >>= λ b. ok (f b, rest))
Ends-map n _ f rest (done_ok b) k = ends_ok (f b) rest k
Ends-map n _ f rest done_refused k = ends_refused
Ends-map n _ f rest done_panic k = ends_panic

ltb→le : (a b : ℕ) → ltb a b ≡ false → b ≤ a
ltb→le a b h = ground arith

receive-Ends :
    (fuel limit : ℕ) (external : Bool) (conn : Bytes)
    → length conn < fuel
    → Ends (length conn) (receive_limit_message fuel limit external conn)
unfolding receive_limit_message
receive-Ends zero limit external conn h = absurd (omega arith)
receive-Ends (suc fuel) limit external conn h =
    Ends-if (length conn) (ltb (length conn) 12) refused _ ends_refused λ enough.
      Ends-if (length conn) (neg64 head.length || leb limit head.length) refused _ ends_refused λ _.
        Ends-if (length conn) (external && not (external_messages head.cmd)) refused _ ends_refused
          λ _. Ends-if (length conn) (ltb (length tail) head.length) refused _ ends_refused λ _.
            Ends-map (length conn) (from_data receive head.cmd head.version (take head.length tail))
              _ _
              (from_data-IsDone receive (length tail)
                (λ b hb.
                  receive-Ends fuel receive_limit false b
                    (omega (arith, length-drop 12 conn, ltb→le (length conn) 12 enough)))
                head.cmd head.version (take head.length tail)
                (length-take-le_length head.length tail))
              (omega (arith, length-drop head.length tail, length-drop 12 conn))
  where
    head : Header
    head = read_header (take 12 conn)

    tail : Bytes
    tail = drop 12 conn

    receive : Bytes → Outcome (Message × Bytes)
    receive = receive_limit_message fuel receive_limit false

-- On every input each of the four ways to receive a message returns one, with a rest no longer than
-- the input, refuses the input or panics: none runs out of fuel.
pub receive_message-Ends :
    (conn : Bytes)
    → Ends (length conn) (receive_message conn)
      × Ends (length conn) (receive_client_message conn)
      × Ends (length conn) (receive_storage_sync_message conn)
      × Ends (length conn) (receive_storage_message conn)
unfolding receive_message receive_client_message receive_storage_sync_message
    receive_storage_message
receive_message-Ends conn =
    let ends = λ (limit : ℕ) (external : Bool).
      receive-Ends (suc (length conn)) limit external conn (omega arith) in
    (
      ends receive_limit false,
      ends receive_limit true,
      ends (32 * 1024 * 1024) false,
      ends (1024 * 1024) false,
    )
