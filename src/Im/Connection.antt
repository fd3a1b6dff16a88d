-- ===== src/Im/Connection.antt =====
-- im/connection.go: the queue of a connection's messages. `SendMessages` takes all of it at once.
use im_service.Prelude.{
  ℕ, zero, suc, ◌+◌, ◌-◌, ◌≤◌, ◌<◌, ◌≡◌, refl, sym, ap, ◌∙◌, inl, inr, Bool, true, false, List, [],
  ◌∷◌, ◌++◌, Option, none, some, length, drop, ltb, leb, if◌then◌else◌, le→leb, lt→leb, arith,
  length-append, length-drop, drop-append_le, append-nil, append_assoc, Bool-cases, leb→le, leb→lt,
}
use im_service.Core.Body.{Message}

abbrev pub message_queue_limit : ℕ
message_queue_limit = 1000

-- `closed` and `tc` are counts of 0 for an open connection that is not blocked. `lwt` is whether its
-- channel holds a signal.
pub record Connection : Type 0 where
  pub closed : ℕ
  pub tc : ℕ
  pub lwt : Bool
  pub messages : List Message

abbrev pub new_connection : Connection
new_connection = record { closed = 0; tc = 0; lwt = false; messages = [] }

-- A message at the end of a queue, which drops its first message if it is full.
unfoldable pub push_back : Message → List Message → List Message
push_back m messages =
    (if leb message_queue_limit (length messages) then drop 1 messages else messages) ++ m ∷ []

unfoldable pub enqueue_non_block_continue_message :
    Message → Option Message → Connection → Connection × Bool
unfolding push_back
enqueue_non_block_continue_message m sub_m c =
    if ltb 0 c.closed
    then (c, false)
    else if ltb 0 c.tc
    then (record c { tc = c.tc + 1 }, false)
    else (
      record c {
        messages = elim sub_m [
          | none ↦ push_back m c.messages
          | some m' ↦ push_back m' (push_back m c.messages)
        ];
        lwt = true;
      },
      true,
    )

-- The last `n` of a list.
abbrev pub last_messages : ℕ → List Message → List Message
last_messages n l = drop (length l - n) l

drop-drop : (n : ℕ) (l : List Message) → drop 1 (drop n l) ≡ drop (suc n) l
unfolding drop
drop-drop zero l = refl
drop-drop (suc n) [] = refl
drop-drop (suc n) (x ∷ l) = drop-drop n l

push_back-last_messages :
    (m : Message) (l : List Message)
    → push_back m (last_messages message_queue_limit l)
      ≡ last_messages message_queue_limit (l ++ m ∷ [])
unfolding push_back
push_back-last_messages m l =
    let n = length l - message_queue_limit in
    let k = length-append l (m ∷ []) in
    elim (Bool-cases (leb message_queue_limit (length l))) [
      | inl full ↦
          let h : message_queue_limit ≤ length l = leb→le message_queue_limit (length l) full in
          let e : leb message_queue_limit (length (drop n l)) ≡ true =
            le→leb message_queue_limit (length (drop n l)) (omega (arith, length-drop n l, h)) in
          rw (e, drop-drop n l)
            (sym (drop-append_le l (m ∷ []) (suc n) (omega (arith, h)))
              ∙ ap (λ (i : ℕ). drop i (l ++ m ∷ [])) (omega (arith, k, h)))
      | inr room ↦
          let h : length l < message_queue_limit = leb→lt message_queue_limit (length l) room in
          let e : leb message_queue_limit (length (drop n l)) ≡ false =
            lt→leb message_queue_limit (length (drop n l)) (omega (arith, length-drop n l, h)) in
          rw e (
            sym (drop-append_le l (m ∷ []) n (omega arith))
            ∙ ap (λ (i : ℕ). drop i (l ++ m ∷ [])) (omega (arith, k, h)))
    ]

-- Calls of `EnqueueNonBlockContinueMessage`, one behind the other.
unfoldable pub enqueues : List (Message × Option Message) → Connection → Connection
unfolding enqueue_non_block_continue_message
enqueues [] c = c
enqueues ((m, sub_m) ∷ calls) c = enqueues calls (enqueue_non_block_continue_message m sub_m c).0

-- All messages of the calls, in order.
unfoldable pub all_messages : List (Message × Option Message) → List Message
all_messages [] = []
all_messages ((m, none) ∷ calls) = m ∷ all_messages calls
all_messages ((m, some m') ∷ calls) = m ∷ m' ∷ all_messages calls

module _ (m : Message) (sub_m : Option Message) (c : Connection) (h : c.closed ≡ 0)
    (t : c.tc ≡ 0) where
  abbrev enqueued : Connection
  enqueued = (enqueue_non_block_continue_message m sub_m c).0

  enqueued-open :
      (enqueued.closed ≡ 0)
      × (enqueued.tc ≡ 0)
      × (enqueued.messages ≡ elim sub_m [
        | none ↦ push_back m c.messages
        | some m' ↦ push_back m' (push_back m c.messages)
      ])
  unfolding enqueue_non_block_continue_message
  enqueued-open = ground arith

-- From a connection that is open and not blocked, with a queue that holds the last 1000 of `before`.
enqueues-last_messages :
    (calls : List (Message × Option Message)) (before : List Message) (c : Connection)
    → c.closed ≡ 0
    → c.tc ≡ 0
    → c.messages ≡ last_messages message_queue_limit before
    → (enqueues calls c).messages ≡ last_messages message_queue_limit (before ++ all_messages calls)
unfolding enqueues all_messages
enqueues-last_messages [] before c h t e =
    e ∙ ap (last_messages message_queue_limit) (sym (append-nil before))
enqueues-last_messages ((m, none) ∷ calls) before c h t e =
    let (h', t', q) = enqueued-open m none c h t in
    let f = q ∙ ap (push_back m) e ∙ push_back-last_messages m before in
    enqueues-last_messages calls (before ++ m ∷ []) (enqueued m none c h t) h' t' f
    ∙ ap (last_messages message_queue_limit) (append_assoc before (m ∷ []) (all_messages calls))
enqueues-last_messages ((m, some m') ∷ calls) before c h t e =
    let (h', t', q) = enqueued-open m (some m') c h t in
    let f =
      q
      ∙ ap (λ l. push_back m' (push_back m l)) e
      ∙ ap (push_back m') (push_back-last_messages m before)
      ∙ push_back-last_messages m' (before ++ m ∷ []) in
    enqueues-last_messages calls ((before ++ m ∷ []) ++ m' ∷ []) (enqueued m (some m') c h t) h' t'
      f
    ∙ ap (last_messages message_queue_limit) (
        append_assoc (before ++ m ∷ []) (m' ∷ []) (all_messages calls)
        ∙ append_assoc before (m ∷ []) (m' ∷ all_messages calls))

-- On a connection that is new, and so neither closed nor blocked, after any calls of
-- `EnqueueNonBlockContinueMessage` the queue holds exactly the last 1000 of all the messages that
-- the calls were given, each call's second message behind its first, in order, and so at most 1000.
pub enqueues-bounded :
    (calls : List (Message × Option Message))
    → ((enqueues calls new_connection).messages
        ≡ drop (length (all_messages calls) - 1000) (all_messages calls))
      × (length (enqueues calls new_connection).messages ≤ 1000)
unfolding drop
enqueues-bounded calls =
    let e = enqueues-last_messages calls [] new_connection refl refl refl in
    let l = all_messages calls in (e, omega (arith, ap length e, length-drop (length l - 1000) l))
