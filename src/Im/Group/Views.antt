-- ===== src/Im/Group/Views.antt =====
-- A group as what is known of each user: the time of joining, and whether the user is muted.
use im_service.Prelude.{
  ℕ, ◌+◌, ◌*◌, ◌/◌, ◌%◌, ◌^◌, ◌<◌, ◌≡◌, refl, sym, ap, ◌∙◌, Bool, true, false, not, List, [], ◌∷◌,
  Option, none, some, All, arith, ◌==◌, if◌then◌else◌, Bool-cases, Option-cases, ==_eq, inl, inr,
}
use im_service.Prelude.Maps.{value_at, value_at-put, value_at-delete}
use im_service.Prelude.Bits.{bit_or_sum, bit_or_comm}
use im_service.Im.Group.Defs.{
  Group, add_member, remove_member, with_mute, set_member_mute, is_group_member,
  get_member_timestamp, get_member_mute,
}
use mathlib.Core.Option

abbrev pub unpacked : ℕ → ℕ × Bool
unpacked v = (v % 2 ^ 31, not (v / 2 ^ 31 % 2 == 0))

abbrev pub view : ℕ → Group → Option (ℕ × Bool)
view uid g = Option.map unpacked (value_at uid g.members)

with_mute_sum : (b : Bool) (v : ℕ) → with_mute b v ≡ (if b then 1 else 0) * 2 ^ 31 + v % 2 ^ 31
unfolding with_mute
with_mute_sum b v =
    let m : ℕ = if b then 1 else 0 in
    bit_or_comm (v % 2 ^ 31) (m * 2 ^ 31) ∙ bit_or_sum 31 m (v % 2 ^ 31) (omega arith)

pair_eq : (x y : ℕ × Bool) → x.0 ≡ y.0 → x.1 ≡ y.1 → x ≡ y
pair_eq (a, b) (c, d) p q = rw (p, q) refl

unpacked-with_mute : (b : Bool) (v : ℕ) → unpacked (with_mute b v) ≡ (v % 2 ^ 31, b)
unpacked-with_mute true v =
    let low : (1 * 2 ^ 31 + v % 2 ^ 31) % 2 ^ 31 ≡ v % 2 ^ 31 = omega arith in
    let high : not ((1 * 2 ^ 31 + v % 2 ^ 31) / 2 ^ 31 % 2 == 0) ≡ true = ground arith in
    rw (with_mute_sum true v) (pair_eq _ _ low high)
unpacked-with_mute false v =
    let low : (0 * 2 ^ 31 + v % 2 ^ 31) % 2 ^ 31 ≡ v % 2 ^ 31 = omega arith in
    let high : not ((0 * 2 ^ 31 + v % 2 ^ 31) / 2 ^ 31 % 2 == 0) ≡ false = ground arith in
    rw (with_mute_sum false v) (pair_eq _ _ low high)

view-add_member :
    (u j ts : ℕ) (g : Group)
    → ts < 2 ^ 31
    → view j (add_member u ts g) ≡ (if u == j then some (ts, false) else view j g)
unfolding add_member
view-add_member u j ts g h =
    let low : ts % 2 ^ 31 ≡ ts = omega arith in
    let high : not (ts / 2 ^ 31 % 2 == 0) ≡ false = ground arith in
    ap (Option.map unpacked) (value_at-put u j ts g.members) ∙ elim (Bool-cases (u == j)) [
      | inl e ↦ rw e (ap some (pair_eq _ _ low high))
      | inr e ↦ rw e refl
    ]

view-remove_member :
    (u j : ℕ) (g : Group) → view j (remove_member u g) ≡ (if u == j then none else view j g)
unfolding remove_member
view-remove_member u j g = elim (Option-cases (value_at u g.members)) [
  | inl e ↦ elim (Bool-cases (u == j)) [
    | inl s ↦
        rw (e, s, remove_member)
          (ap (λ (i : ℕ). view i g) (sym (==_eq u j s)) ∙ ap (Option.map unpacked) e)
    | inr s ↦ rw (e, s, remove_member) refl
  ]
  | inr (v, e) ↦
      rw (e, remove_member)
        (ap (Option.map unpacked) (value_at-delete u j g.members)
          ∙ elim (Bool-cases (u == j)) [ inl s ↦ rw s refl | inr s ↦ rw s refl ])
]

view-set_member_mute :
    (u j : ℕ) (b : Bool) (g : Group)
    → view j (set_member_mute u b g)
      ≡ (if u == j then Option.map (λ (x : ℕ × Bool). (x.0, b)) (view j g) else view j g)
unfolding set_member_mute
view-set_member_mute u j b g = elim (Option-cases (value_at u g.members)) [
  | inl e ↦ elim (Bool-cases (u == j)) [
    | inl s ↦
        let none_there : view j g ≡ none =
          ap (λ (i : ℕ). view i g) (sym (==_eq u j s)) ∙ ap (Option.map unpacked) e in
        rw (e, s, set_member_mute)
          (none_there ∙ ap (Option.map (λ (x : ℕ × Bool). (x.0, b))) (sym none_there))
    | inr s ↦ rw (e, s, set_member_mute) refl
  ]
  | inr (v, e) ↦
      rw (e, set_member_mute)
        (ap (Option.map unpacked) (value_at-put u j (with_mute b v) g.members)
          ∙ elim (Bool-cases (u == j)) [
            | inl s ↦
                let there : view j g ≡ some (unpacked v) =
                  ap (λ (i : ℕ). view i g) (sym (==_eq u j s)) ∙ ap (Option.map unpacked) e in
                rw s (
                  ap some (unpacked-with_mute b v)
                  ∙ ap (Option.map (λ (x : ℕ × Bool). (x.0, b))) (sym there))
            | inr s ↦ rw s refl
          ])
]

abbrev pub is_some : Option (ℕ × Bool) → Bool
is_some none = false
is_some (some x) = true

abbrev pub known : Option (ℕ × Bool) → ℕ × Bool
known none = (0, false)
known (some x) = x

-- The three tests of a member against the view.
tests-view :
    (j : ℕ) (g : Group)
    → (is_group_member j g ≡ is_some (view j g))
      × (get_member_timestamp j g ≡ (known (view j g)).0)
      × (get_member_mute j g ≡ (known (view j g)).1)
unfolding is_group_member get_member_timestamp get_member_mute
tests-view j g = elim (Option-cases (value_at j g.members)) [
  | inl e ↦ rw (e, is_group_member, get_member_timestamp, get_member_mute) (refl, refl, refl)
  | inr (v, e) ↦ rw (e, is_group_member, get_member_timestamp, get_member_mute) (refl, refl, refl)
]

-- The calls of a group.
pub data GroupCall : Type 0 where
  adds : ℕ → ℕ → GroupCall
  removes : ℕ → GroupCall
  mutes : ℕ → Bool → GroupCall

abbrev pub call : GroupCall → Group → Group
call (adds u ts) g = add_member u ts g
call (removes u) g = remove_member u g
call (mutes u b) g = set_member_mute u b g

-- What a call makes of what is known of the user `j`.
abbrev pub effect : ℕ → GroupCall → Option (ℕ × Bool) → Option (ℕ × Bool)
effect j (adds u ts) x = if u == j then some (ts, false) else x
effect j (removes u) x = if u == j then none else x
effect j (mutes u b) x = if u == j then Option.map (λ (y : ℕ × Bool). (y.0, b)) x else x

abbrev pub IsCall : GroupCall → Type 0
IsCall (adds u ts) = ts < 2 ^ 31
IsCall (removes u) = Unit {0}
IsCall (mutes u b) = Unit {0}

abbrev pub calls : List GroupCall → Group → Group
calls [] g = g
calls (c ∷ cs) g = calls cs (call c g)

abbrev pub effects : ℕ → List GroupCall → Option (ℕ × Bool) → Option (ℕ × Bool)
effects j [] x = x
effects j (c ∷ cs) x = effects j cs (effect j c x)

view-call :
    (j : ℕ) (c : GroupCall) (g : Group) → IsCall c → view j (call c g) ≡ effect j c (view j g)
view-call j (adds u ts) g h = view-add_member u j ts g h
view-call j (removes u) g h = view-remove_member u j g
view-call j (mutes u b) g h = view-set_member_mute u j b g

view-calls :
    (j : ℕ) (cs : List GroupCall) (g : Group)
    → All IsCall cs
    → view j (calls cs g) ≡ effects j cs (view j g)
view-calls j [] g h = refl
view-calls j (c ∷ cs) g (h, hs) =
    view-calls j cs (call c g) hs ∙ ap (effects j cs) (view-call j c g h)

-- After any sequence of `AddMember` with times below 2^31, `RemoveMember` and `SetMemberMute`, the
-- calls `IsMember`, `GetMemberTimestamp` and `GetMemberMute` give for each user what they give of a
-- plain record of the user's time and mute flag: adding sets the time and clears the flag, removing
-- forgets both, and muting sets the flag of a member and keeps the time.
pub tests-calls :
    (j : ℕ) (cs : List GroupCall) (g : Group)
    → All IsCall cs
    → let x = effects j cs (view j g) in
      (is_group_member j (calls cs g) ≡ is_some x)
      × (get_member_timestamp j (calls cs g) ≡ (known x).0)
      × (get_member_mute j (calls cs g) ≡ (known x).1)
tests-calls j cs g h =
    let e = view-calls j cs g h in
    let (a, b, c) = tests-view j (calls cs g) in
    (
      a ∙ ap is_some e,
      b ∙ ap (λ (w : Option (ℕ × Bool)). (known w).0) e,
      c ∙ ap (λ (w : Option (ℕ × Bool)). (known w).1) e,
    )
