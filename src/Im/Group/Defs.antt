-- ===== src/Im/Group/Defs.antt =====
-- `Group` and the calls of its members.
use Prim.Native.Nat.{bit_or}
use im_service.Prelude.{
  ℕ, ◌*◌, ◌/◌, ◌%◌, ◌^◌, Bool, true, false, not, List, [], ◌∷◌, none, some, length, ◌==◌,
  if◌then◌else◌,
}
use im_service.Prelude.Maps.{Map, value_at, put, delete}
use mathlib.Core.Option

-- `members` holds for each member the time of joining, and in bit 31 whether the member is muted.
pub record Group : Type 0 where
  pub gid : ℕ
  pub appid : ℕ
  pub super : Bool
  pub members : Map ℕ

unfoldable pub new_group : ℕ → ℕ → Map ℕ → Group
new_group gid appid members = record { gid = gid; appid = appid; super = false; members = members }

unfoldable pub new_super_group : ℕ → ℕ → Map ℕ → Group
new_super_group gid appid members = record {
  gid = gid;
  appid = appid;
  super = true;
  members = members;
}

unfoldable pub add_member : ℕ → ℕ → Group → Group
add_member uid timestamp g = record g { members = put uid timestamp g.members }

unfoldable pub remove_member : ℕ → Group → Group
remove_member uid g = elim (value_at uid g.members) [
  | none ↦ g
  | some v ↦ record g { members = delete uid g.members }
]

-- `(val & 0x7FFFFFFF) | (m << 31)`.
unfoldable pub with_mute : Bool → ℕ → ℕ
with_mute mute v = let m = if mute then 1 else 0 in bit_or (v % 2 ^ 31) (m * 2 ^ 31)

unfoldable pub set_member_mute : ℕ → Bool → Group → Group
set_member_mute uid mute g = elim (value_at uid g.members) [
  | none ↦ g
  | some v ↦ record g { members = put uid (with_mute mute v) g.members }
]

unfoldable pub is_group_member : ℕ → Group → Bool
is_group_member uid g = elim (value_at uid g.members) [ none ↦ false | some v ↦ true ]

-- `ts & 0x7FFFFFFF`; a missing key has 0.
unfoldable pub get_member_timestamp : ℕ → Group → ℕ
get_member_timestamp uid g = Option.get_or (value_at uid g.members) 0 % 2 ^ 31

-- `(t>>31)&0x01 != 0`.
unfoldable pub get_member_mute : ℕ → Group → Bool
get_member_mute uid g = not (Option.get_or (value_at uid g.members) 0 / 2 ^ 31 % 2 == 0)

unfoldable pub is_empty : Group → Bool
is_empty g = length g.members == 0

-- `timestamp | (mute << 31)` of each row that `LoadGroupMember` reads: a later row of a uid replaces an
-- earlier one.
unfoldable pub load_members : List (ℕ × ℕ × ℕ) → Map ℕ → Map ℕ
load_members [] members = members
load_members ((uid, timestamp, mute) ∷ rows) members =
    load_members rows (put uid (bit_or timestamp (mute * 2 ^ 31)) members)
