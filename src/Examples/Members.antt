-- ===== src/Examples/Members.antt =====
-- A group that user 5 joins and leaves, and in which user 6 is muted.
use im_service.Prelude.{◌≡◌, true, false, List, [], ◌∷◌, arith}
use im_service.Im.Group.Defs.{Group, is_group_member, get_member_timestamp, get_member_mute}
use im_service.Im.Group.Views.{
  GroupCall, adds, removes, mutes, calls, effects, view, is_some, known, tests-calls,
}

abbrev friends : Group
friends = record { gid = 9; appid = 7; super = false; members = (6, 1500000000) ∷ [] }

abbrev events : List GroupCall
events = adds 5 1600000000 ∷ mutes 6 true ∷ mutes 5 true ∷ removes 5 ∷ []

tests-calls_example :
    let x = effects 6 events (view 6 friends) in
    (is_group_member 6 (calls events friends) ≡ is_some x)
    × (get_member_timestamp 6 (calls events friends) ≡ (known x).0)
    × (get_member_mute 6 (calls events friends) ≡ (known x).1)
tests-calls_example = tests-calls 6 events friends (omega arith, (tt, (tt, (tt, tt))))
