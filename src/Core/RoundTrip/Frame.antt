-- ===== src/Core/RoundTrip/Frame.antt =====
-- The header in front of a body, and the table that says how to decode the body.
use im_service.Prelude.{
  ℕ, suc, ◌+◌, ◌%◌, ◌^◌, ◌≤◌, ◌<◌, ◌≡◌, refl, ◌∙◌, Bool, true, false, not, ◌&&◌, none, some, [],
  ◌++◌, arith, length, le→ltb, lt→leb, if◌then◌else◌, take-append, drop-append, length-append,
  append_assoc,
}
use im_service.Prelude.Bytes.{Bytes, read4, read1, extend32, lengths}
use im_service.Core.Body.{Message, Body}
use im_service.Core.Command.{
  Kind, VersionKind, message_creators, vmessage_creators, external_messages,
}
use im_service.Core.Encode.{write_header}
use im_service.Core.Decode.{
  Outcome, ok, refused, ◌>>=◌, Header, read_header, from_data, from_data_kind, from_data_version,
  receive_limit_message, receive_limit,
}

pub length-write_header : (len s c v f : ℕ) → length (write_header len s c v f) ≡ 12
unfolding write_header
length-write_header len s c v f = omega lengths

pub extend32_small : (n : ℕ) → n < 2 ^ 31 → extend32 n ≡ n
unfolding extend32
extend32_small n h = ground arith

abbrev header : ℕ → ℕ → ℕ → ℕ → ℕ → Header
header len s c v f = record {
  length = len;
  seq = extend32 (s % 2 ^ 32);
  cmd = c;
  version = v;
  flag = f % 2 ^ 8;
}

pub read_header-write :
    (len s c v f : ℕ)
    → len < 2 ^ 31
    → c < 2 ^ 8
    → v < 2 ^ 8
    → read_header (write_header len s c v f) ≡ header len s c v f
unfolding read_header write_header
read_header-write len s c v f hl hc hv =
    let el : len % 2 ^ 32 ≡ len = omega arith in
    let ec : c % 2 ^ 8 ≡ c = omega arith in
    let ev : v % 2 ^ 8 ≡ v = omega arith in
    simp (el, ec, ev)
      (simp (
        read4 len 0 (omega arith),
        read4 (s % 2 ^ 32) 0 (omega arith),
        read1 c 0 hc,
        read1 v 0 hv,
        read1 (f % 2 ^ 8) 0 (omega arith),
        extend32_small len hl,
      ))

module _ (fuel limit : ℕ) (external : Bool) (s c v f : ℕ) (front rest : Bytes) where
  -- Of a body within the limit the command is tested, and then its bytes are decoded.
  framed :
      c < 2 ^ 8
      → v < 2 ^ 8
      → length front < limit
      → limit ≤ 2 ^ 31
      → receive_limit_message
          (suc fuel)
          limit
          external
          ((write_header (length front) s c v f ++ front) ++ rest)
        ≡ (if external && not (external_messages c) then refused else do
          b ← from_data (receive_limit_message fuel receive_limit false) c v front
          ok (Message.message c (extend32 (s % 2 ^ 32)) v (f % 2 ^ 8) b none, rest))
  unfolding receive_limit_message
  framed hc hv hl hm =
      let h : Bytes = write_header (length front) s c v f in
      let total : length (h ++ (front ++ rest)) ≡ 12 + (length front + length rest) =
        length-append h (front ++ rest)
        ∙ omega (arith, length-write_header (length front) s c v f, length-append front rest) in
      simp (
        append_assoc h front rest,
        take-append h (front ++ rest) 12 (length-write_header (length front) s c v f),
        drop-append h (front ++ rest) 12 (length-write_header (length front) s c v f),
        le→ltb (length (h ++ (front ++ rest))) 12 (omega (arith, total)),
        read_header-write (length front) s c v f (omega arith) hc hv,
        lt→leb 0x8000_0000_0000_0000 (length front) (omega arith),
        lt→leb limit (length front) hl,
        le→ltb (length (front ++ rest)) (length front) (omega (arith, length-append front rest)),
        take-append front rest (length front) refl,
        drop-append front rest (length front) refl,
      )

  module _ (hc : c < 2 ^ 8) (hv : v < 2 ^ 8) (hl : length front < limit) (hm : limit ≤ 2 ^ 31) where
    -- A body whose bytes decode is received behind its header.
    pub receive-frame :
        (b : Body)
        → (external ≡ true → external_messages c ≡ true)
        → from_data (receive_limit_message fuel receive_limit false) c v front ≡ ok b
        → receive_limit_message
            (suc fuel)
            limit
            external
            ((write_header (length front) s c v f ++ front) ++ rest)
          ≡ ok (Message.message c (extend32 (s % 2 ^ 32)) v (f % 2 ^ 8) b none, rest)
    receive-frame b he hb =
        let allowed : (external && not (external_messages c)) ≡ false = ground (arith, he) in
        framed hc hv hl hm ∙ rw (allowed, hb)

    -- A command that clients may not send is refused.
    pub refuse-frame :
        external ≡ true
        → external_messages c ≡ false
        → receive_limit_message
            (suc fuel)
            limit
            external
            ((write_header (length front) s c v f ++ front) ++ rest)
          ≡ refused
    refuse-frame ex he =
        let banned : (external && not (external_messages c)) ≡ true = ground arith in
        framed hc hv hl hm ∙ rw banned

module _ (receive : Bytes → Outcome (Message × Bytes)) (c v : ℕ) (buff : Bytes) where
  pub from_data-kind :
      (k : Kind)
      → message_creators c ≡ some k
      → from_data receive c v buff ≡ from_data_kind receive k buff
  unfolding from_data
  from_data-kind k h = rw (h, from_data)

  pub from_data-version :
      (k : VersionKind)
      → (message_creators c ≡ none) × (vmessage_creators c ≡ some k)
      → from_data receive c v buff ≡ from_data_version k v buff
  unfolding from_data
  from_data-version k (h, h') = rw (h, h', from_data)

pub from_data-no_body :
    (receive : Bytes → Outcome (Message × Bytes)) (c v : ℕ)
    → (message_creators c ≡ none) × (vmessage_creators c ≡ none)
    → from_data receive c v [] ≡ ok Body.no_body
unfolding from_data
from_data-no_body receive c v (h, h') = rw (h, h', from_data)
