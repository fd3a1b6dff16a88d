-- ===== src/Im/GroupMessageDeliver/Send/Members.antt =====
-- Each member is sent the message with the ids that storage gave for it, once for each time that it
-- stands among the members.
use im_service.Prelude.{
  ℕ, ◌+◌, ◌≡◌, refl, sym, ap, subst, ◌∙◌, inl, inr, List, [], ◌∷◌, ◌++◌, Option, none, some, map,
  ◌==◌, ==_eq, arith, append_assoc, Option-cases, Bool-cases,
}
use mathlib.Core.List.{Perm, foldr}
use mathlib.Core.List.Perm
use native.Mathlib.Nat.{ℕ_set}
use im_service.Prelude.Maps.{Map, value_at, put, delete, IsMap, put-IsMap}
use im_service.Prelude.Bytes.{Bytes}
use im_service.Core.Body.{Message, Metadata, PendingGroupMessage}
use im_service.Im.Group.{Group, new_group}
use im_service.Im.GroupMessageDeliver.Send.Defs.{
  Effect, Net, add_batch_member, batch_members, group_members, group_message, send_batches,
  send_group_message, storage_rpc_index,
}
use im_service.Im.GroupMessageDeliver.Send.Told.{
  given, with_ids, assigned, sent, pushes, told, ids_of, occurs, members_of, occurs-append,
  occurs_in,
}
use im_service.Im.GroupMessageDeliver.Send.Due.{due, due_message, told-due}
use im_service.Im.GroupMessageDeliver.Send.Servers.{apart_in, batch_members-apart_in}
use im_service.Im.GroupMessageDeliver.Send.Batches.{send_batches-Sends}

abbrev values : Map (List ℕ) → List (List ℕ)
values m = map (λ e. e.1) m

abbrev occurs_of : ℕ → Option (List ℕ) → ℕ
occurs_of u none = 0
occurs_of u (some b) = occurs u b

-- What a key's batch holds, and the rest of the map.
values-delete :
    (u k : ℕ) (m : Map (List ℕ))
    → IsMap m
    → occurs_in u (values m) ≡ occurs_of u (value_at k m) + occurs_in u (values (delete k m))
unfolding value_at delete occurs_in
values-delete u k [] h = omega arith
values-delete u k ((j, b) ∷ m) (h, hs) =
    let ih = values-delete u k m hs in
    elim (Bool-cases (j == k)) [
      | inl e ↦
          let f : value_at k m ≡ none = subst (λ (i : ℕ). value_at i m ≡ none) (==_eq j k e) h in
          rw e (omega (arith, ih, ap (occurs_of u) f))
      | inr e ↦ rw e (omega (arith, ih))
    ]

occurs-put :
    (u k : ℕ) (b : List ℕ) (m : Map (List ℕ))
    → occurs_in u (values (put k b m)) ≡ occurs u b + occurs_in u (values (delete k m))
unfolding put occurs_in
occurs-put u k b m = refl

add_batch_member-occurs :
    (u k v : ℕ) (m : Map (List ℕ))
    → IsMap m
    → occurs_in u (values (add_batch_member k v m)) ≡ occurs_in u (values m) + occurs u (v ∷ [])
unfolding add_batch_member
add_batch_member-occurs u k v m h =
    let d = values-delete u k m h in
    elim (Option-cases (value_at k m)) [
      | inl e ↦
          rw (e, add_batch_member) (omega (arith, d, occurs-put u k (v ∷ []) m, ap (occurs_of u) e))
      | inr (b, e) ↦
          rw (e, add_batch_member)
            (omega (
              arith,
              d,
              occurs-put u k (b ++ v ∷ []) m,
              ap (occurs_of u) e,
              occurs-append u b (v ∷ []),
            ))
    ]

add_batch_member-IsMap : (k v : ℕ) (m : Map (List ℕ)) → IsMap m → IsMap (add_batch_member k v m)
unfolding add_batch_member
add_batch_member-IsMap k v m h = elim (Option-cases (value_at k m)) [
  | inl e ↦ rw (e, add_batch_member) (put-IsMap k (v ∷ []) m h)
  | inr (b, e) ↦ rw (e, add_batch_member) (put-IsMap k (b ++ v ∷ []) m h)
]

batch_members-occurs :
    (n u : ℕ) (members : List ℕ) (m : Map (List ℕ))
    → IsMap m
    → occurs_in u (values (batch_members n members m)) ≡ occurs_in u (values m) + occurs u members
unfolding batch_members
batch_members-occurs n u [] m h = unfold occurs in omega arith
batch_members-occurs n u (v ∷ members) m h =
    let k = storage_rpc_index n v in
    omega (
      arith,
      batch_members-occurs n u members (add_batch_member k v m) (add_batch_member-IsMap k v m h),
      add_batch_member-occurs u k v m h,
      occurs-append u (v ∷ []) members,
    )

occurs_in-foldr :
    (u : ℕ) (bs : List (List ℕ))
    → occurs_in u bs ≡ foldr (λ (b : List ℕ) (k : ℕ). occurs u b + k) 0 bs
unfolding occurs_in
occurs_in-foldr u [] = refl
occurs_in-foldr u (b ∷ bs) = ap (◌+◌ (occurs u b)) (occurs_in-foldr u bs)

occurs_in-Perm : (u : ℕ) {bs cs : List (List ℕ)} → Perm bs cs → occurs_in u bs ≡ occurs_in u cs
occurs_in-Perm u {bs} {cs} p =
    occurs_in-foldr u bs
    ∙ Perm.foldr-eq ℕ_set (λ b k. occurs u b + k) (λ a b x. omega arith) p 0
    ∙ sym (occurs_in-foldr u cs)

-- A call of `PushGroupMessage` behind all else.
push_last :
    (es : List Effect) (a : ℕ) (g : Group) (m : Message)
    → (sent (es ++ Effect.pushed a g m ∷ []) ≡ sent es)
      × (assigned (es ++ Effect.pushed a g m ∷ []) ≡ assigned es)
      × (pushes (es ++ Effect.pushed a g m ∷ []) ≡ pushes es ++ Effect.pushed a g m ∷ [])
      × (given (es ++ Effect.pushed a g m ∷ []) ≡ given es)
unfolding sent assigned pushes given
push_last [] a g m = (refl, refl, refl, refl)
push_last (Effect.saved mb r ∷ es) a g m =
    let (p, q, r', i) = push_last es a g m in (p, ap (◌++◌ (with_ids mb r)) q, r', ap (◌∷◌ mb) i)
push_last (Effect.published b u x ∷ es) a g m =
    let (p, q, r, i) = push_last es a g m in (ap (◌∷◌ (Effect.published b u x)) p, q, r, i)
push_last (Effect.queued c x ∷ es) a g m =
    let (p, q, r, i) = push_last es a g m in (ap (◌∷◌ (Effect.queued c x)) p, q, r, i)
push_last (Effect.pushed b h x ∷ es) a g m =
    let (p, q, r, i) = push_last es a g m in (p, q, ap (◌∷◌ (Effect.pushed b h x)) r, i)

abbrev pub none_yet : Metadata
none_yet = record { sync_key = 0; prev_sync_key = 0 }

module _ {R : Type 0} (gm : PendingGroupMessage)
    (storage : ℕ → List ℕ → ℕ → ℕ → Bytes → R → R × Option (List ℕ)) (n : ℕ)
    (range : Map (List ℕ) → List (List ℕ)) (net : Net R) where
  abbrev pub batches : List (List ℕ)
  batches = range (batch_members n gm.members [])

  abbrev members_group : Group
  members_group = new_group gm.gid gm.appid (group_members gm.members [])

  group-failed :
      (send_batches gm storage batches none_yet net).1 ≡ none
      → (send_group_message gm storage n range net).1 ≡ none
  unfolding send_group_message
  group-failed e = rw (e, send_group_message)

  pub group-done :
      (meta : Metadata)
      → (send_batches gm storage batches none_yet net).1 ≡ some meta
      → send_group_message gm storage n range net ≡ (
        record ((send_batches gm storage batches none_yet net).0) {
          out =
              (send_batches gm storage batches none_yet net).0.out
              ++ Effect.pushed gm.appid members_group (group_message gm) ∷ [];
        },
        some meta,
      )
  unfolding send_group_message
  group-done meta e = rw (e, send_group_message)

  -- Let `range` give the values of a map in some order. If `sendGroupMessage` succeeds, then
  -- storage was given each user as often as it stands among the message's members, and in no batch
  -- users of two storage servers; what was published and queued for users is, for each user and the
  -- ids that storage answered for it, in the order of the answers, the group's message with the
  -- push flag and these ids and then the notice of the first id, each published and then queued for
  -- the clients of the user, but for the sender's not for those of the device that the message came
  -- from; the message without flag and ids was given to `PushGroupMessage` once, with the group of
  -- the members; and the result are the sender's last ids, 0 if the sender is no member.
  pub send_group_message-members :
      (meta : Metadata)
      → ((m : Map (List ℕ)) → Perm (range m) (map (λ e. e.1) m))
      → (send_group_message gm storage n range net).1 ≡ some meta
      → (new : List Effect) × ((send_group_message gm storage n range net).0.out ≡ net.out ++ new)
        × (sent new ≡ due gm net.app_route (assigned new))
        × (apart_in n (given new) ≡ 0)
        × ((u : ℕ) → occurs u (members_of (assigned new)) ≡ occurs u gm.members)
        × (meta ≡ ids_of gm.sender (assigned new) (record { sync_key = 0; prev_sync_key = 0 }))
        × (pushes new ≡ Effect.pushed gm.appid members_group (due_message gm 0 none) ∷ [])
  send_group_message-members meta ordered h =
      elim (Option-cases (send_batches gm storage batches none_yet net).1) [
        | inl e ↦ cc (group-failed e, h)
        | inr (meta', e) ↦
            let done = group-done meta' e in
            let same : meta' ≡ meta = cc (ap (λ p. p.1) done, h) in
            let s = send_batches-Sends gm storage batches none_yet net meta' e in
            let last = Effect.pushed gm.appid members_group (group_message gm) ∷ [] in
            let (p, q, r, i) = push_last s.new gm.appid members_group (group_message gm) in
            (
              s.new ++ last,
              ap (λ p. p.0.out) done ∙ ap (λ o. o ++ last) s.out ∙ append_assoc net.out s.new last,
              p
                  ∙ s.members_told
                  ∙ ap (told gm net.app_route) (sym q)
                  ∙ told-due gm net.app_route (assigned (s.new ++ last)),
              ap (apart_in n) (i ∙ s.batched)
                  ∙ batch_members-apart_in n gm.members batches
                      (ordered (batch_members n gm.members [])),
              λ u.
                  ap (λ l. occurs u (members_of l)) q
                  ∙ s.members u
                  ∙ occurs_in-Perm u (ordered (batch_members n gm.members []))
                  ∙ batch_members-occurs n u gm.members [] tt
                  ∙ unfold occurs_in in omega arith,
              sym same ∙ s.sender ∙ ap (λ l. ids_of gm.sender l none_yet) (sym q),
              r ∙ ap (λ l. l ++ last) s.quiet,
            )
      ]
