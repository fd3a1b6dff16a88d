-- ===== src/Imr/Route/Flags.antt =====
-- What the routes of a client say of a user, and how the calls of a route change it.
use im_service.Prelude.{
  ℕ, ◌≡◌, refl, ap, ◌∙◌, Bool, true, ◌&&◌, Option, none, some, arith, ◌==◌, if◌then◌else◌, ==_eq,
  Bool-cases, inl, inr,
}
use im_service.Prelude.Maps.{value_at, value_at-put, value_at-delete}
use im_service.Imr.Route.Defs.{
  Route, AppRoute, new_route, find_route, at_route, add_user_id, remove_user_id, add_room_id,
  remove_room_id,
}
use mathlib.Core.Option

abbrev flag_in : ℕ → Option Route → Option Bool
flag_in uid none = none
flag_in uid (some r) = value_at uid r.uids

-- Whether the user is known, and online.
unfoldable pub flag_at : ℕ → ℕ → AppRoute → Option Bool
flag_at appid uid apps = flag_in uid (find_route appid apps)

pub flag_at-at_route :
    (appid a u : ℕ) (call : Route → Route) (apps : AppRoute)
    → flag_at a u (at_route appid call apps) ≡ (
        if appid == a
        then value_at u (call (Option.get_or (find_route appid apps) (new_route appid))).uids
        else flag_at a u apps)
unfolding flag_at at_route find_route
flag_at-at_route appid a u call apps =
    ap (flag_in u)
      (value_at-put appid a (call (Option.get_or (value_at appid apps) (new_route appid))) apps)
    ∙ ground arith

-- The users of a route that is found or made.
route_uids :
    (appid u : ℕ) (apps : AppRoute)
    → value_at u (Option.get_or (find_route appid apps) (new_route appid)).uids
      ≡ flag_at appid u apps
unfolding flag_at value_at
route_uids appid u apps = ground arith

module _ (appid uid a u : ℕ) (apps : AppRoute) where
  old_flag :
      appid == a ≡ true
      → value_at u (Option.get_or (find_route appid apps) (new_route appid)).uids ≡ flag_at a u apps
  old_flag e = route_uids appid u apps ∙ ap (λ (i : ℕ). flag_at i u apps) (==_eq appid a e)

  pub flag_at-add_user_id :
      (on : Bool)
      → flag_at a u (at_route appid (add_user_id uid on) apps)
        ≡ (if appid == a && uid == u then some on else flag_at a u apps)
  unfolding add_user_id
  flag_at-add_user_id on =
      flag_at-at_route appid a u (add_user_id uid on) apps ∙ elim (Bool-cases (appid == a)) [
        | inl e ↦
            rw e (value_at-put uid u on _ ∙ ap (λ r. if uid == u then some on else r) (old_flag e))
        | inr e ↦ rw e refl
      ]

  pub flag_at-remove_user_id :
      flag_at a u (at_route appid (remove_user_id uid) apps)
      ≡ (if appid == a && uid == u then none else flag_at a u apps)
  unfolding remove_user_id
  flag_at-remove_user_id =
      flag_at-at_route appid a u (remove_user_id uid) apps ∙ elim (Bool-cases (appid == a)) [
        | inl e ↦
            rw e (value_at-delete uid u _ ∙ ap (λ r. if uid == u then none else r) (old_flag e))
        | inr e ↦ rw e refl
      ]

-- The calls for rooms leave the users as they are.
pub flag_at-same :
    (appid a u : ℕ) (call : Route → Route) (apps : AppRoute)
    → ((r : Route) → (call r).uids ≡ r.uids)
    → flag_at a u (at_route appid call apps) ≡ flag_at a u apps
flag_at-same appid a u call apps h =
    flag_at-at_route appid a u call apps ∙ elim (Bool-cases (appid == a)) [
      | inl e ↦
          rw (e, h (Option.get_or (find_route appid apps) (new_route appid)))
            (old_flag appid 0 a u apps e)
      | inr e ↦ rw e refl
    ]

pub add_room_id-uids : (room_id : ℕ) (r : Route) → (add_room_id room_id r).uids ≡ r.uids
unfolding add_room_id
add_room_id-uids room_id r = refl

pub remove_room_id-uids : (room_id : ℕ) (r : Route) → (remove_room_id room_id r).uids ≡ r.uids
unfolding remove_room_id
remove_room_id-uids room_id r = refl
