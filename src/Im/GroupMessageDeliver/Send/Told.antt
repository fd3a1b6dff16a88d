-- ===== src/Im/GroupMessageDeliver/Send/Told.antt =====
-- The effects of sending: the ids that storage gave, and what the members are sent.
use im_service.Prelude.{
  ℕ, ◌+◌, ◌*◌, ◌≡◌, refl, sym, ap, ◌∙◌, List, [], ◌∷◌, ◌++◌, none, some, map, length, All,
  if◌then◌else◌, ◌==◌, arith, append-nil, append_assoc,
}
use im_service.Core.Body.{Message, Metadata, PendingGroupMessage}
use im_service.Im.Route.{Client, AppRoute, find_route, find_client_set}
use im_service.Im.GroupMessageDeliver.Send.Defs.{
  Effect, Net, queue_for, send_message, send_member, send_members,
}

-- The members of a batch, with the ids that storage answered.
unfoldable pub with_ids : List ℕ → List ℕ → List (ℕ × Metadata)
with_ids [] r = []
with_ids (u ∷ us) [] = []
with_ids (u ∷ us) (i ∷ []) = []
with_ids (u ∷ us) (i ∷ p ∷ r) = (u, record { sync_key = i; prev_sync_key = p }) ∷ with_ids us r

-- The ids that storage gave, call by call.
unfoldable pub assigned : List Effect → List (ℕ × Metadata)
assigned [] = []
assigned (Effect.saved mb r ∷ es) = with_ids mb r ++ assigned es
assigned (_ ∷ es) = assigned es

-- The batches that storage was given.
unfoldable pub given : List Effect → List (List ℕ)
given [] = []
given (Effect.saved mb r ∷ es) = mb ∷ given es
given (_ ∷ es) = given es

-- What was published and queued.
unfoldable pub sent : List Effect → List Effect
sent [] = []
sent (Effect.published a u m ∷ es) = Effect.published a u m ∷ sent es
sent (Effect.queued c m ∷ es) = Effect.queued c m ∷ sent es
sent (_ ∷ es) = sent es

-- What was given to `PushGroupMessage`.
unfoldable pub pushes : List Effect → List Effect
pushes [] = []
pushes (Effect.pushed a g m ∷ es) = Effect.pushed a g m ∷ pushes es
pushes (_ ∷ es) = pushes es

-- What each of these members is sent, in this order.
unfoldable pub told : PendingGroupMessage → AppRoute → List (ℕ × Metadata) → List Effect
told gm app_route [] = []
told gm app_route ((u, meta) ∷ l) = send_member gm app_route u meta ++ told gm app_route l

-- The ids of the user's last entry, or `d`.
unfoldable pub ids_of : ℕ → List (ℕ × Metadata) → Metadata → Metadata
ids_of u [] d = d
ids_of u ((v, meta) ∷ l) d = ids_of u l (if v == u then meta else d)

unfoldable pub occurs : ℕ → List ℕ → ℕ
occurs u [] = 0
occurs u (v ∷ vs) = (if v == u then 1 else 0) + occurs u vs

abbrev pub members_of : List (ℕ × Metadata) → List ℕ
members_of l = map (λ a. a.0) l

-- A list that is nothing but published and queued messages.
abbrev pub IsSend : Effect → Type 0
IsSend (Effect.published a u m) = Unit {0}
IsSend (Effect.queued c m) = Unit {0}
IsSend _ = ⊥

module _ (x : List Effect) where
  pub sends-append :
      (es : List Effect)
      → All IsSend es
      → (sent (es ++ x) ≡ es ++ sent x)
        × (assigned (es ++ x) ≡ assigned x)
        × (pushes (es ++ x) ≡ pushes x)
        × (given (es ++ x) ≡ given x)
  unfolding sent assigned pushes given
  sends-append [] h = (refl, refl, refl, refl)
  sends-append (Effect.published a u m ∷ es) (h, hs) =
      let (a1, a2, a3, a4) = sends-append es hs in
      (ap (◌∷◌ (Effect.published a u m)) a1, a2, a3, a4)
  sends-append (Effect.queued c m ∷ es) (h, hs) =
      let (a1, a2, a3, a4) = sends-append es hs in (ap (◌∷◌ (Effect.queued c m)) a1, a2, a3, a4)
  sends-append (Effect.saved mb r ∷ es) (h, hs) = absurd h
  sends-append (Effect.pushed a g m ∷ es) (h, hs) = absurd h

All-append : (l k : List Effect) → All IsSend l → All IsSend k → All IsSend (l ++ k)
All-append [] k hl hk = hk
All-append (a ∷ l) k (h, hs) hk = (h, All-append l k hs hk)

queue_for-IsSend :
    (uid sender device_id : ℕ) (m : Message) (set : List Client)
    → All IsSend (queue_for uid sender device_id m set)
unfolding queue_for
queue_for-IsSend uid sender device_id m [] = tt
queue_for-IsSend uid sender device_id m (c ∷ set) =
    ground (arith, queue_for-IsSend uid sender device_id m set)

send_message-IsSend :
    (a : AppRoute) (appid uid sender device_id : ℕ) (m : Message)
    → All IsSend (send_message a appid uid sender device_id m)
unfolding send_message
send_message-IsSend a appid uid sender device_id m = (
  tt,
  elim (find_route appid a)
      as (λ r. All IsSend (elim r [
        | none ↦ []
        | some route ↦ queue_for uid sender device_id m (find_client_set uid route)
      ])) [
        | none ↦ tt
        | some route ↦ queue_for-IsSend uid sender device_id m (find_client_set uid route)
      ],
)

module _ (gm : PendingGroupMessage) where
  pub told-IsSend : (a : AppRoute) (l : List (ℕ × Metadata)) → All IsSend (told gm a l)
  unfolding told send_member
  told-IsSend a [] = tt
  told-IsSend a ((u, meta) ∷ l) =
      All-append _ (told gm a l)
        (All-append _ _ (send_message-IsSend a _ u _ _ _) (send_message-IsSend a _ u _ _ _))
        (told-IsSend a l)

  pub told-append :
      (a : AppRoute) (l k : List (ℕ × Metadata)) → told gm a (l ++ k) ≡ told gm a l ++ told gm a k
  unfolding told
  told-append a [] k = refl
  told-append a ((u, meta) ∷ l) k =
      ap (◌++◌ (send_member gm a u meta)) (told-append a l k)
      ∙ sym (append_assoc (send_member gm a u meta) (told gm a l) (told gm a k))

  module _ {R : Type 0} where
    pub send_members-told :
        (mb r : List ℕ) (d : Metadata) (net : Net R)
        → length r ≡ length mb * 2
        → send_members gm mb r d net ≡ (
          record net { out = net.out ++ told gm net.app_route (with_ids mb r) },
          ids_of gm.sender (with_ids mb r) d,
        )
    unfolding send_members with_ids told ids_of
    send_members-told [] r d net h =
        ap (λ o. (record net { out = o }, d)) (sym (append-nil net.out))
    send_members-told (u ∷ mb) [] d net h = absurd (omega arith)
    send_members-told (u ∷ mb) (i ∷ []) d net h = absurd (omega arith)
    send_members-told (u ∷ mb) (i ∷ p ∷ r) d net h =
        let meta : Metadata = record { sync_key = i; prev_sync_key = p } in
        let first = send_member gm net.app_route u meta in
        let d' = if u == gm.sender then meta else d in
        send_members-told mb r d' (record net { out = net.out ++ first }) (omega arith)
        ∙ ap (λ o. (record net { out = o }, ids_of gm.sender (with_ids mb r) d'))
            (append_assoc net.out first (told gm net.app_route (with_ids mb r)))

pub members_of-with_ids :
    (mb r : List ℕ) → length r ≡ length mb * 2 → members_of (with_ids mb r) ≡ mb
unfolding with_ids
members_of-with_ids [] r h = refl
members_of-with_ids (u ∷ mb) [] h = absurd (omega arith)
members_of-with_ids (u ∷ mb) (i ∷ []) h = absurd (omega arith)
members_of-with_ids (u ∷ mb) (i ∷ p ∷ r) h = ap (◌∷◌ u) (members_of-with_ids mb r (omega arith))

pub members_of-append :
    (l k : List (ℕ × Metadata)) → members_of (l ++ k) ≡ members_of l ++ members_of k
members_of-append [] k = refl
members_of-append (a ∷ l) k = ap (◌∷◌ a.0) (members_of-append l k)

pub ids_of-append :
    (u : ℕ) (l k : List (ℕ × Metadata)) (d : Metadata)
    → ids_of u (l ++ k) d ≡ ids_of u k (ids_of u l d)
unfolding ids_of
ids_of-append u [] k d = refl
ids_of-append u ((v, meta) ∷ l) k d = ids_of-append u l k (if v == u then meta else d)

pub occurs-append : (u : ℕ) (xs ys : List ℕ) → occurs u (xs ++ ys) ≡ occurs u xs + occurs u ys
unfolding occurs
occurs-append u [] ys = omega arith
occurs-append u (x ∷ xs) ys = omega (arith, occurs-append u xs ys)

-- In all of several lists.
unfoldable pub occurs_in : ℕ → List (List ℕ) → ℕ
occurs_in u [] = 0
occurs_in u (b ∷ bs) = occurs u b + occurs_in u bs
