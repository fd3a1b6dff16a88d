-- ===== src/Im/PeerClient/Assertions.antt =====
-- The type assertions of `isSender` hold of a body that was decoded for its command.
use im_service.Prelude.{
  ℕ, ◌≡◌, refl, sym, ap, subst, ◌∙◌, inl, inr, Bool, true, false, ◌&&◌, ◌||◌, List, none, some,
  ◌==◌, ==_eq, Bool-cases, ◌⊎◌,
}
use im_service.Core.Body.{Body, ImMessage, CustomerMessage}
use im_service.Core.Command.{
  default_version, Kind, VersionKind, message_creators, vmessage_creators, msg_im, msg_group_im,
  msg_customer, msg_customer_support,
}
use im_service.Core.Decode.{
  Outcome, ok, refused, panic, stuck, ◌>>=◌, from_data, from_data_version, from_data_kind,
  read_im_message, read_customer_message, receive_message,
}
use im_service.Core.RoundTrip.Frame.{from_data-version, from_data-kind}
use im_service.Im.PeerClient.Defs.{PeerClient, HistoryMessage, is_sender}

-- A body that is a decoded value under its constructor.
wrapped :
    {A : Type 0} (con : A → Body) (decoded : Outcome A) {body : Body}
    → (do x ← decoded; ok (con x)) ≡ ok body
    → (x : A) × (body ≡ con x)
wrapped con (ok x) e = (x, cc)
wrapped con refused e = cc
wrapped con panic e = cc
wrapped con stuck e = cc

-- The bytes of a message of the history give its command a body.
pub record Decoded (h : HistoryMessage) : Type 0 where
  pub body : Body
  pub decodes : from_data receive_message h.cmd default_version h.raw ≡ ok body

-- The message was sent by the client's user from the client's device.
unfoldable pub mine : ℕ → PeerClient → ℕ → ℕ → Body → Bool
mine kefu_appid c cmd device_id (Body.im_message m) =
    (cmd == msg_im || cmd == msg_group_im) && (m.sender == c.uid && device_id == c.device_id)
mine kefu_appid c cmd device_id (Body.customer_message m) =
    (cmd == msg_customer
      && ((m.customer_appid == c.appid && m.customer_id == c.uid) && device_id == c.device_id))
    || (cmd == msg_customer_support
        && ((kefu_appid == c.appid && m.seller_id == c.uid) && device_id == c.device_id))
mine kefu_appid c cmd device_id _ = false

or-false : (a : Bool) → (a || false) ≡ a
or-false true = refl
or-false false = refl

im_creators :
    (cmd : ℕ)
    → (cmd ≡ msg_im) ⊎ (cmd ≡ msg_group_im)
    → (message_creators cmd ≡ none) × (vmessage_creators cmd ≡ some VersionKind.im_message)
unfolding message_creators vmessage_creators
im_creators cmd (inl e) = rw e (refl, refl)
im_creators cmd (inr e) = rw e (refl, refl)

customer_creators :
    (cmd : ℕ)
    → (cmd ≡ msg_customer) ⊎ (cmd ≡ msg_customer_support)
    → message_creators cmd ≡ some Kind.customer_message
unfolding message_creators
customer_creators cmd (inl e) = rw e refl
customer_creators cmd (inr e) = rw e refl

module _ (kefu_appid : ℕ) (c : PeerClient) (device_id : ℕ) where
  abbrev pub IsMine : ℕ → Body → Type 0
  IsMine cmd b = is_sender kefu_appid c cmd b device_id ≡ ok (mine kefu_appid c cmd device_id b)

  im_typed :
      (cmd : ℕ) (raw : List ℕ) (b : Body)
      → (message_creators cmd ≡ none) × (vmessage_creators cmd ≡ some VersionKind.im_message)
      → from_data receive_message cmd default_version raw ≡ ok b
      → (m : ImMessage) × (b ≡ Body.im_message m)
  unfolding from_data_version
  im_typed cmd raw b k h =
      let e =
        sym (from_data-version receive_message cmd default_version raw VersionKind.im_message k)
        ∙ h in
      wrapped Body.im_message (read_im_message default_version raw) e

  customer_typed :
      (cmd : ℕ) (raw : List ℕ) (b : Body)
      → message_creators cmd ≡ some Kind.customer_message
      → from_data receive_message cmd default_version raw ≡ ok b
      → (m : CustomerMessage) × (b ≡ Body.customer_message m)
  unfolding from_data_kind
  customer_typed cmd raw b k h =
      let e =
        sym (from_data-kind receive_message cmd default_version raw Kind.customer_message k) ∙ h in
      wrapped Body.customer_message (read_customer_message raw) e

  -- A message of a user or a group.
  im-IsMine :
      (cmd : ℕ) (m : ImMessage)
      → (cmd ≡ msg_im) ⊎ (cmd ≡ msg_group_im)
      → IsMine cmd (Body.im_message m)
  unfolding is_sender mine
  im-IsMine cmd m (inl e) = rw e (ap ok (or-false (m.sender == c.uid && device_id == c.device_id)))
  im-IsMine cmd m (inr e) = rw e (ap ok (or-false (m.sender == c.uid && device_id == c.device_id)))

  customer-IsMine :
      (cmd : ℕ) (m : CustomerMessage)
      → (cmd ≡ msg_customer) ⊎ (cmd ≡ msg_customer_support)
      → IsMine cmd (Body.customer_message m)
  unfolding is_sender mine
  customer-IsMine cmd m (inl e) = rw e refl
  customer-IsMine cmd m (inr e) = rw e refl

  -- Any other command.
  other-IsMine :
      (cmd : ℕ) (b : Body)
      → (cmd == msg_im || cmd == msg_group_im) ≡ false
      → (cmd == msg_customer) ≡ false
      → (cmd == msg_customer_support) ≡ false
      → IsMine cmd b
  unfolding is_sender mine
  other-IsMine cmd (Body.im_message m) h i j = rw (h, i, j) refl
  other-IsMine cmd (Body.customer_message m) h i j = rw (h, i, j) refl
  other-IsMine cmd _ h i j = rw (h, i, j) refl

  which : (a b : Bool) → (a || b) ≡ true → (a ≡ true) ⊎ (b ≡ true)
  which true b h = inl refl
  which false b h = inr h

  -- The type assertions of `isSender` hold of a body that was decoded for the command.
  pub is_sender-IsMine :
      (cmd : ℕ) (raw : List ℕ) (b : Body)
      → from_data receive_message cmd default_version raw ≡ ok b
      → IsMine cmd b
  is_sender-IsMine cmd raw b h = elim (Bool-cases (cmd == msg_im || cmd == msg_group_im)) [
    | inl e ↦ elim (which (cmd == msg_im) (cmd == msg_group_im) e) [
      | inl f ↦ of_im (inl (==_eq cmd msg_im f))
      | inr f ↦ of_im (inr (==_eq cmd msg_group_im f))
    ]
    | inr e ↦ elim (Bool-cases (cmd == msg_customer)) [
      | inl f ↦ of_customer (inl (==_eq cmd msg_customer f))
      | inr f ↦ elim (Bool-cases (cmd == msg_customer_support)) [
        | inl g ↦ of_customer (inr (==_eq cmd msg_customer_support g))
        | inr g ↦ other-IsMine cmd b e f g
      ]
    ]
  ]
    where
      of_im : (cmd ≡ msg_im) ⊎ (cmd ≡ msg_group_im) → IsMine cmd b
      of_im k =
          let (m, e) = im_typed cmd raw b (im_creators cmd k) h in
          subst (IsMine cmd) (sym e) (im-IsMine cmd m k)

      of_customer : (cmd ≡ msg_customer) ⊎ (cmd ≡ msg_customer_support) → IsMine cmd b
      of_customer k =
          let (m, e) = customer_typed cmd raw b (customer_creators cmd k) h in
          subst (IsMine cmd) (sym e) (customer-IsMine cmd m k)
