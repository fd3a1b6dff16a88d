-- ===== src/Im/Relationship.antt =====
-- im/relationship.go: how two users stand to each other, as four bits of an int32.
use Prim.Native.Nat.{bit_and, bit_or}
use im_service.Prelude.{
  ℕ, ◌≡◌, refl, sym, ap, Bool, true, false, not, Option, none, some, ◌==◌, if◌then◌else◌,
}
use mathlib.Core.Option

-- `if b { r |= mask }`.
unfoldable pub raise : Bool → ℕ → ℕ → ℕ
raise b mask r = if b then bit_or r mask else r

unfoldable pub new_relationship : Bool → Bool → Bool → Bool → ℕ
new_relationship is_my_friend is_your_friend is_in_my_blacklist is_in_your_blacklist =
    raise is_in_your_blacklist 0x08
      (raise is_in_my_blacklist 0x04 (raise is_your_friend 0x02 (raise is_my_friend 0x01 0)))

unfoldable pub is_my_friend : ℕ → Bool
is_my_friend rs = not (bit_and rs 0x01 == 0)

unfoldable pub is_your_friend : ℕ → Bool
is_your_friend rs = not (bit_and rs 0x02 == 0)

unfoldable pub is_in_my_blacklist : ℕ → Bool
is_in_my_blacklist rs = not (bit_and rs 0x04 == 0)

unfoldable pub is_in_your_blacklist : ℕ → Bool
is_in_your_blacklist rs = not (bit_and rs 0x08 == 0)

unfoldable pub reverse : ℕ → ℕ
reverse rs =
    new_relationship (is_your_friend rs) (is_my_friend rs) (is_in_your_blacklist rs)
      (is_in_my_blacklist rs)

-- `GetRelationship`. The two statements are parameters: whether a row for an appid and two uids can be
-- read, or nothing if the statement cannot be prepared, in which case the call returns an error.
unfoldable pub get_relationship :
    Option (ℕ → ℕ → ℕ → Bool) → Option (ℕ → ℕ → ℕ → Bool) → ℕ → ℕ → ℕ → Option ℕ
get_relationship none blacklist appid uid friend_uid = none
get_relationship (some friend) none appid uid friend_uid = none
get_relationship (some friend) (some blacklist) appid uid friend_uid = some (
    new_relationship (friend appid uid friend_uid) (friend appid friend_uid uid)
      (blacklist appid uid friend_uid) (blacklist appid friend_uid uid))

-- Each of the four tests of a relationship gives the flag that the relationship was made with.
pub new_relationship_lem :
    (a b c d : Bool)
    → (is_my_friend (new_relationship a b c d) ≡ a)
      × (is_your_friend (new_relationship a b c d) ≡ b)
      × (is_in_my_blacklist (new_relationship a b c d) ≡ c)
      × (is_in_your_blacklist (new_relationship a b c d) ≡ d)
unfolding new_relationship raise is_my_friend is_your_friend is_in_my_blacklist is_in_your_blacklist
new_relationship_lem true true true true = (refl, refl, refl, refl)
new_relationship_lem true true true false = (refl, refl, refl, refl)
new_relationship_lem true true false true = (refl, refl, refl, refl)
new_relationship_lem true true false false = (refl, refl, refl, refl)
new_relationship_lem true false true true = (refl, refl, refl, refl)
new_relationship_lem true false true false = (refl, refl, refl, refl)
new_relationship_lem true false false true = (refl, refl, refl, refl)
new_relationship_lem true false false false = (refl, refl, refl, refl)
new_relationship_lem false true true true = (refl, refl, refl, refl)
new_relationship_lem false true true false = (refl, refl, refl, refl)
new_relationship_lem false true false true = (refl, refl, refl, refl)
new_relationship_lem false true false false = (refl, refl, refl, refl)
new_relationship_lem false false true true = (refl, refl, refl, refl)
new_relationship_lem false false true false = (refl, refl, refl, refl)
new_relationship_lem false false false true = (refl, refl, refl, refl)
new_relationship_lem false false false false = (refl, refl, refl, refl)

pub reverse-new_relationship :
    (a b c d : Bool) → reverse (new_relationship a b c d) ≡ new_relationship b a d c
unfolding reverse
reverse-new_relationship a b c d =
    let (ha, hb, hc, hd) = new_relationship_lem a b c d in rw (ha, hb, hc, hd) refl

-- Whatever rows the two tables hold, the relationship that `GetRelationship` reads for two users in
-- the other order is the reverse of the one that it reads in this order, and the call fails in the
-- one order if it fails in the other.
pub reverse-get_relationship :
    (friend blacklist : Option (ℕ → ℕ → ℕ → Bool)) (appid uid friend_uid : ℕ)
    → get_relationship friend blacklist appid friend_uid uid
      ≡ Option.map reverse (get_relationship friend blacklist appid uid friend_uid)
unfolding get_relationship
reverse-get_relationship none blacklist appid uid friend_uid = refl
reverse-get_relationship (some friend) none appid uid friend_uid = refl
reverse-get_relationship (some friend) (some blacklist) appid uid friend_uid = ap some (
    sym (
      reverse-new_relationship (friend appid uid friend_uid) (friend appid friend_uid uid)
        (blacklist appid uid friend_uid) (blacklist appid friend_uid uid)))
