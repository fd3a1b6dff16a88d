-- ===== src/Imr/Agreement/Sends.antt =====
-- What the messages of im/channel.go's `Subscribe` and `Unsubscribe` make of the flags in imr/route.go.
use im_service.Prelude.{
  ℕ, ◌+◌, ◌≤◌, ◌≡◌, refl, Bool, true, false, ◌&&◌, Option, none, some, arith, ltb, ◌==◌,
  if◌then◌else◌, Bool-cases, inl, inr,
}
use im_service.Im.Channel.Counts.{Connection, is_of, one_if}
use im_service.Im.Channel.Subscribed.{subscribe_sends, unsubscribe_sends}
use im_service.Imr.Client.Flags.{flag_after}

-- What the route server is to know of a user with `n` connections, `m` of them online.
abbrev pub flag_of : ℕ → ℕ → Option Bool
flag_of n m = if n == 0 then none else some (ltb 0 m)

-- What a call sends makes the one into the other.
pub flag_after-subscribe_sends :
    (a u n m : ℕ) (x : Connection)
    → m ≤ n
    → is_of a u x ≡ true
    → flag_after a u (flag_of n m) (subscribe_sends n m x) ≡ flag_of (1 + n) (one_if x.online + m)
unfolding flag_after
flag_after-subscribe_sends a u n m x h t = elim (Bool-cases (n == 0)) [
  | inl z ↦ rw (z, t) (ground arith)
  | inr z ↦ elim (Bool-cases (m == 0 && x.online)) [
    | inl w ↦ rw (z, w, t) (ground arith)
    | inr w ↦ rw (z, w) (ground arith)
  ]
]

pub flag_after-unsubscribe_sends :
    (a u n m : ℕ) (x : Connection)
    → m ≤ n
    → is_of a u x ≡ true
    → flag_after a u
        (flag_of (1 + n) (one_if x.online + m))
        (unsubscribe_sends (1 + n) (one_if x.online + m) x)
      ≡ flag_of n m
unfolding flag_after
flag_after-unsubscribe_sends a u n m x h t = elim (Bool-cases (1 + n == 1)) [
  | inl z ↦ rw (z, t) (ground arith)
  | inr z ↦ elim (Bool-cases (ltb 1 (1 + n) && one_if x.online + m == 1 && x.online)) [
    | inl w ↦ rw (z, w, t) (ground arith)
    | inr w ↦ rw (z, w) (ground arith)
  ]
]

-- What it sends is not about another user.
pub subscribe_sends-other :
    (a u n m : ℕ) (x : Connection) (f : Option Bool)
    → is_of a u x ≡ false
    → flag_after a u f (subscribe_sends n m x) ≡ f
unfolding flag_after
subscribe_sends-other a u n m x f t = elim (Bool-cases (n == 0)) [
  | inl z ↦ rw (z, t) refl
  | inr z ↦ elim (Bool-cases (m == 0 && x.online)) [
    | inl w ↦ rw (z, w, t) refl
    | inr w ↦ rw (z, w) refl
  ]
]

pub unsubscribe_sends-other :
    (a u n m : ℕ) (x : Connection) (f : Option Bool)
    → is_of a u x ≡ false
    → flag_after a u f (unsubscribe_sends n m x) ≡ f
unfolding flag_after
unsubscribe_sends-other a u n m x f t = elim (Bool-cases (n == 1)) [
  | inl z ↦ rw (z, t) refl
  | inr z ↦ elim (Bool-cases (ltb 1 n && m == 1 && x.online)) [
    | inl w ↦ rw (z, w, t) refl
    | inr w ↦ rw (z, w) refl
  ]
]

pub flag_of-other :
    (n m : ℕ) (b o : Bool) → b ≡ false → flag_of (one_if b + n) (one_if (b && o) + m) ≡ flag_of n m
flag_of-other n m b o e = rw e (ground arith)
