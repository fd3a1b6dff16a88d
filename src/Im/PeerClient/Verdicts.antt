-- ===== src/Im/PeerClient/Verdicts.antt =====
-- What `HandleIMMessage` does with a message is what is decided of it.
use im_service.Prelude.{
  ℕ, ◌%◌, ◌^◌, ◌≡◌, refl, sym, ap, subst, ◌∙◌, inl, inr, Bool, true, false, not, ◌&&◌, ◌||◌, [],
  ◌∷◌, ◌++◌, Option, none, some, ◌==◌, if◌then◌else◌, append-nil, Bool-cases,
}
use im_service.Core.Body.{Message, Body, ImMessage, Metadata}
use im_service.Core.Command.{msg_ack}
use im_service.Core.Decode.{ok}
use im_service.Im.Relationship.{is_my_friend, is_your_friend, is_in_your_blacklist}
use im_service.Im.RelationshipPool.{pool_relationship}
use im_service.Im.PeerClient.Defs.{PeerClient}
use im_service.Im.PeerClient.Messages.{
  Action, World, Environment, act, ask, refuse, save_and_send, friend_status, check_and_send,
  handle_im_message,
}
use im_service.Im.RelationshipPool.Twice.{ask_again}
use im_service.Im.PeerClient.Decisions.{
  Verdict, ignored, refused, refusal, stamped, saved_copies, by_refusal, verdict, actions_of, Does,
  save_and_send-Does,
}

module _ {R : Type 0} (env : Environment R) (c : PeerClient) (version : ℕ) where
  module _ (seq flag : ℕ) (im : ImMessage) (w : World R) where
    -- The relationship of the client's user and the receiver, as the pool answers.
    abbrev pub relation : ℕ
    relation =
        (pool_relationship env.friend env.blacklist env.now c.appid c.uid im.receiver w.pool).1

    abbrev judged : Bool → Bool → R × Verdict
    judged fp bl = by_refusal env c version flag im w.storages (refusal fp bl relation)

    abbrev checked : Bool → Bool → World R
    checked fp bl = check_and_send env c version fp bl seq flag im w

    module _ (w2 : World R) (ks : w2.storages ≡ w.storages) (ka : w2.actions ≡ w.actions) where
      sent_from :
          Does env c version w
            (save_and_send env c version seq flag im w2)
            seq
            flag
            im
            (saved_copies env c version (stamped env c version flag im) w.storages)
      sent_from =
          let d = save_and_send-Does env c version seq flag im w2 in
          record {
            storages =
                d.storages
                ∙ ap (λ x. (saved_copies env c version (stamped env c version flag im) x).0) ks;
            actions =
                d.actions
                ∙ ap
                    (λ l.
                      l
                      ++ actions_of env c version seq flag im
                          (saved_copies env c version (stamped env c version flag im)
                            w2.storages).1)
                    ka
                ∙ ap
                    (λ x.
                      w.actions
                      ++ actions_of env c version seq flag im
                          (saved_copies env c version (stamped env c version flag im) x).1)
                    ks;
          }

      refused_from :
          (s : ℕ)
          → Does env c version w (refuse env c version seq s w2) seq flag im (w.storages, refused s)
      unfolding refuse actions_of act
      refused_from s = record {
        storages = ks;
        actions =
            ap
              (λ l.
                l
                ++ Action.enqueue (
                    Message.message msg_ack 0 version 0
                      (Body.message_ack (record { seq = seq % 2 ^ 32; status = s })) none)
                  ∷ [])
              ka;
      }

    -- By what the tests come to, on both sides.
    check_refused :
        (w2 : World R) (fp bl : Bool) (n : ℕ)
        → w2.storages ≡ w.storages
        → w2.actions ≡ w.actions
        → checked fp bl ≡ refuse env c version seq n w2
        → refusal fp bl relation ≡ some n
        → Does env c version w (checked fp bl) seq flag im (judged fp bl)
    unfolding by_refusal
    check_refused w2 fp bl n ks ka p q =
        subst (λ x. Does env c version w x seq flag im (judged fp bl)) (sym p)
          (subst
            (λ r.
              Does env c version w (refuse env c version seq n w2) seq flag im
                (by_refusal env c version flag im w.storages r))
            (sym q) (refused_from w2 ks ka n))

    check_sent :
        (w2 : World R) (fp bl : Bool)
        → w2.storages ≡ w.storages
        → w2.actions ≡ w.actions
        → checked fp bl ≡ save_and_send env c version seq flag im w2
        → refusal fp bl relation ≡ none
        → Does env c version w (checked fp bl) seq flag im (judged fp bl)
    unfolding by_refusal
    check_sent w2 fp bl ks ka p q =
        subst (λ x. Does env c version w x seq flag im (judged fp bl)) (sym p)
          (subst
            (λ r.
              Does env c version w (save_and_send env c version seq flag im w2) seq flag im
                (by_refusal env c version flag im w.storages r))
            (sym q) (sent_from w2 ks ka))

    abbrev asked : World R
    asked = (ask env c version im.receiver w).0

    abbrev asked_again : World R
    asked_again = (ask env c version im.receiver asked).0

    same_answer :
        (pool_relationship env.friend env.blacklist env.now c.appid c.uid im.receiver asked.pool).1
        ≡ relation
    unfolding ask
    same_answer = ask_again env.friend env.blacklist env.now c.appid c.uid im.receiver w.pool

    -- The end of the tests, by the status of the first and whether the receiver refuses the sender.
    abbrev ended : Option ℕ → Bool → World R
    ended (some s) b = refuse env c version seq s asked_again
    ended none true = refuse env c version seq 3 asked_again
    ended none false = save_and_send env c version seq flag im asked_again

    checked-friends :
        (bl b : Bool) (o : Option ℕ)
        → friend_status env c version relation ≡ o
        → (bl && is_in_your_blacklist relation) ≡ b
        → checked true bl ≡ ended o b
    unfolding check_and_send ask
    checked-friends bl b o e f =
        ap (λ r. step (friend_status env c version r) (bl && is_in_your_blacklist relation))
          same_answer
        ∙ ap (λ x. step x (bl && is_in_your_blacklist relation)) e
        ∙ ap (step o) f
        ∙ step-ended o b
      where
        step : Option ℕ → Bool → World R
        step x y = elim x [
          | some s ↦ refuse env c version seq s asked_again
          | none ↦
              if y
              then refuse env c version seq 3 asked_again
              else save_and_send env c version seq flag im asked_again
        ]

        step-ended : (x : Option ℕ) (y : Bool) → step x y ≡ ended x y
        step-ended (some s) y = refl
        step-ended none true = refl
        step-ended none false = refl

    check-Does : (fp bl : Bool) → Does env c version w (checked fp bl) seq flag im (judged fp bl)
    unfolding check_and_send refusal ask friend_status
    check-Does false false = check_sent w false false refl refl refl refl
    check-Does false true = elim (Bool-cases (is_in_your_blacklist relation)) [
      | inl e ↦ check_refused asked false true 3 refl refl (rw e) (rw e)
      | inr e ↦ check_sent asked false true refl refl (rw e) (rw e)
    ]
    check-Does true bl = elim (Bool-cases (is_my_friend relation)) [
      | inr e ↦
          check_refused asked_again true bl 1 refl refl (checked-friends bl _ (some 1) (rw e) refl)
            (rw e)
      | inl e ↦ elim (Bool-cases (is_your_friend relation)) [
        | inr f ↦
            check_refused asked_again true bl 2 refl refl
              (checked-friends bl _ (some 2) (rw (e, f)) refl) (rw (e, f))
        | inl f ↦ elim (Bool-cases (bl && is_in_your_blacklist relation)) [
          | inl g ↦
              check_refused asked_again true bl 3 refl refl
                (checked-friends bl true none (rw (e, f)) g) (rw (e, f, g))
          | inr g ↦
              check_sent asked_again true bl refl refl (checked-friends bl false none (rw (e, f)) g)
                (rw (e, f, g))
        ]
      ]
    ]

    abbrev outsider : Bool
    outsider = c.uid == 0 || not (im.sender == c.uid)

    -- For a client and any message with the body of a message between users, `HandleIMMessage` does
    -- not panic, and the storage and the calls it makes are those of one decision: nothing is done
    -- if the client is not authenticated or is not the sender; otherwise, with the relationship
    -- that the pool gives of the client's user and the receiver, where the settings ask for it, the
    -- client is told status 1, 2 or 3 and nothing is saved if it has not the receiver as a friend,
    -- the receiver has not it as a friend, or it is on the receiver's blacklist, in this order;
    -- otherwise the message, with its words filtered if it is a text and with the current time, is
    -- saved for the receiver and then for the sender, nothing is sent if the receiver's copy or the
    -- sender's fails, and else the calls are the list `deliveries` with the ids of the two copies.
    pub handle_im_message-verdict :
        (cmd v : ℕ) (meta : Option Metadata)
        → (w' : World R) × (handle_im_message env c version
              (Message.message cmd seq v flag (Body.im_message im) meta)
              w
            ≡ ok w')
          × (w'.storages ≡ (verdict env c version flag im relation w.storages).0)
          × (w'.actions
              ≡ w.actions
                ++ actions_of env c version seq flag im
                    (verdict env c version flag im relation w.storages).1)
    unfolding handle_im_message verdict actions_of
    handle_im_message-verdict cmd v meta = elim (Bool-cases outsider) [
      | inl e ↦ (
        w,
        rw e refl,
        ap (λ (b : Bool). (if b then (w.storages, ignored) else judge).0) (sym e),
        sym (append-nil w.actions)
            ∙ ap
                (λ (b : Bool).
                  w.actions
                  ++ actions_of env c version seq flag im
                      (if b then (w.storages, ignored) else judge).1)
                (sym e),
      )
      | inr e ↦
          let d = check-Does env.friend_permission env.enable_blacklist in
          (
            checked env.friend_permission env.enable_blacklist,
            rw e refl,
            d.storages ∙ ap (λ (b : Bool). (if b then (w.storages, ignored) else judge).0) (sym e),
            d.actions
                ∙ ap
                    (λ (b : Bool).
                      w.actions
                      ++ actions_of env c version seq flag im
                          (if b then (w.storages, ignored) else judge).1)
                    (sym e),
          )
    ]
      where
        judge : R × Verdict
        judge = judged env.friend_permission env.enable_blacklist
