-- ===== src/Im/GroupMessageDeliver/Send/Batches.antt =====
-- The loop over the batches: what it publishes, queues and answers.
use im_service.Prelude.{
  ℕ, ◌*◌, ◌≡◌, refl, sym, ap, subst, ◌∙◌, inl, inr, true, false, List, [], ◌∷◌, ◌++◌, Option, none,
  some, length, ◌==◌, ==_eq, arith, append-nil, append_assoc, Option-cases, Bool-cases,
}
use im_service.Prelude.Bytes.{Bytes}
use im_service.Core.Body.{Metadata, PendingGroupMessage}
use im_service.Im.GroupMessageDeliver.Send.Defs.{Effect, Net, save_peer_group_message, send_batches}
use im_service.Im.GroupMessageDeliver.Send.Told.{
  given, with_ids, assigned, sent, pushes, told, ids_of, occurs, members_of, sends-append,
  told-IsSend, told-append, send_members-told, members_of-with_ids, members_of-append,
  ids_of-append, occurs-append, occurs_in,
}

module _ {R : Type 0} (gm : PendingGroupMessage)
    (storage : ℕ → List ℕ → ℕ → ℕ → Bytes → R → R × Option (List ℕ)) where
  -- The loop over the batches went through: what it did.
  pub record Sends (net : Net R) (d : Metadata) (batches : List (List ℕ)) (net' : Net R)
      (meta : Metadata) : Type 0 where
    pub new : List Effect
    pub out : net'.out ≡ net.out ++ new
    pub members_told : sent new ≡ told gm net.app_route (assigned new)
    pub members : (u : ℕ) → occurs u (members_of (assigned new)) ≡ occurs_in u batches
    pub sender : meta ≡ ids_of gm.sender (assigned new) d
    pub quiet : pushes new ≡ []
    pub batched : given new ≡ batches

  save-keeps :
      (mb : List ℕ) (net : Net R)
      → ((save_peer_group_message gm storage mb net).0.out ≡ net.out)
        × ((save_peer_group_message gm storage mb net).0.app_route ≡ net.app_route)
  unfolding save_peer_group_message
  save-keeps [] net = (refl, refl)
  save-keeps (u ∷ mb) net = (refl, refl)

  module _ (mb : List ℕ) (batches : List (List ℕ)) (d : Metadata) (net : Net R) where
    abbrev pub after : Net R
    after = (save_peer_group_message gm storage mb net).0

    batches-failed :
        (save_peer_group_message gm storage mb net).1 ≡ none
        → (send_batches gm storage (mb ∷ batches) d net).1 ≡ none
    unfolding send_batches
    batches-failed e = rw (e, send_batches)

    batches-short :
        (r : List ℕ)
        → (save_peer_group_message gm storage mb net).1 ≡ some r
        → (length r == length mb * 2) ≡ false
        → (send_batches gm storage (mb ∷ batches) d net).1 ≡ none
    unfolding send_batches
    batches-short r e f = rw (e, send_batches) (rw (f, send_batches))

    -- The state in which the next batch is sent.
    abbrev pub then_net : List ℕ → Net R
    then_net r = record after {
      out = (after.out ++ Effect.saved mb r ∷ []) ++ told gm after.app_route (with_ids mb r);
    }

    pub batches-next :
        (r : List ℕ)
        → (save_peer_group_message gm storage mb net).1 ≡ some r
        → (length r == length mb * 2) ≡ true
        → send_batches gm storage (mb ∷ batches) d net
          ≡ send_batches gm storage batches (ids_of gm.sender (with_ids mb r) d) (then_net r)
    unfolding send_batches
    batches-next r e f =
        rw (e, send_batches)
          (rw (f, send_batches)
            (ap (λ p. send_batches gm storage batches p.1 p.0)
              (send_members-told gm mb r d
                (record after { out = after.out ++ Effect.saved mb r ∷ [] })
                (==_eq (length r) (length mb * 2) f))))

  next-Sends :
      (mb : List ℕ) (batches : List (List ℕ)) (d : Metadata) (net : Net R) (r : List ℕ)
      (net' : Net R) (meta : Metadata)
      → length r ≡ length mb * 2
      → Sends (then_net mb batches d net r) (ids_of gm.sender (with_ids mb r) d) batches net' meta
      → Sends net d (mb ∷ batches) net' meta
  unfolding sent assigned pushes given occurs_in
  next-Sends mb batches d net r net' meta h s =
      let (ko, kr) = save-keeps mb net in
      let n = (save_peer_group_message gm storage mb net).0 in
      let t = told gm n.app_route (with_ids mb r) in
      let (a1, a2, a3, a4) = sends-append s.new t (told-IsSend gm n.app_route (with_ids mb r)) in
      let all = ap (◌++◌ (with_ids mb r)) a2 in
      record {
        new = Effect.saved mb r ∷ (t ++ s.new);
        out =
            s.out
            ∙ append_assoc (n.out ++ Effect.saved mb r ∷ []) t s.new
            ∙ append_assoc n.out (Effect.saved mb r ∷ []) (t ++ s.new)
            ∙ ap (λ o. o ++ Effect.saved mb r ∷ (t ++ s.new)) ko;
        members_told =
            a1
            ∙ ap (◌++◌ t) s.members_told
            ∙ sym (told-append gm n.app_route (with_ids mb r) (assigned s.new))
            ∙ ap (told gm n.app_route) (sym all)
            ∙ ap (λ a. told gm a (with_ids mb r ++ assigned (t ++ s.new))) kr;
        members = λ u.
            ap (λ l. occurs u (members_of l)) all
            ∙ ap (occurs u) (members_of-append (with_ids mb r) (assigned s.new))
            ∙ occurs-append u (members_of (with_ids mb r)) (members_of (assigned s.new))
            ∙ omega (arith, ap (occurs u) (members_of-with_ids mb r h), s.members u);
        sender =
            s.sender
            ∙ sym (ids_of-append gm.sender (with_ids mb r) (assigned s.new) d)
            ∙ ap (λ l. ids_of gm.sender l d) (sym all);
        quiet = a3 ∙ s.quiet;
        batched = ap (◌∷◌ mb) (a4 ∙ s.batched);
      }

  pub send_batches-Sends :
      (batches : List (List ℕ)) (d : Metadata) (net : Net R) (meta : Metadata)
      → (send_batches gm storage batches d net).1 ≡ some meta
      → Sends net d batches (send_batches gm storage batches d net).0 meta
  unfolding sent assigned pushes given told ids_of occurs occurs_in
  send_batches-Sends [] d net meta h = record {
    new = [];
    out = unfold send_batches in sym (append-nil net.out);
    members_told = refl;
    members = λ u. refl;
    sender = unfold send_batches in (cc);
    quiet = refl;
    batched = refl;
  }
  send_batches-Sends (mb ∷ batches) d net meta h =
      elim (Option-cases (save_peer_group_message gm storage mb net).1) [
        | inl e ↦ cc (batches-failed mb batches d net e, h)
        | inr (r, e) ↦ elim (Bool-cases (length r == length mb * 2)) [
          | inr f ↦ cc (batches-short mb batches d net r e f, h)
          | inl f ↦
              let next = batches-next mb batches d net r e f in
              let d' = ids_of gm.sender (with_ids mb r) d in
              subst (λ p. Sends net d (mb ∷ batches) p.0 meta) (sym next)
                (next-Sends mb batches d net r _ meta (==_eq (length r) (length mb * 2) f) (
                  send_batches-Sends batches d' (then_net mb batches d net r) meta
                    (ap (λ p. p.1) (sym next) ∙ h)))
        ]
      ]
