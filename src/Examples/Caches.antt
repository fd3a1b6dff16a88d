-- ===== src/Examples/Caches.antt =====
-- A cache of two entries that is full.
use im_service.Prelude.{ℕ, ◌≡◌, refl, [], ◌∷◌, length, arith, inr}
use im_service.Lru.{Cache, find, add, get}
use im_service.Lru.Laws.{used, Added, IsValid, add_lem, get_lem}
use native.Mathlib.Decide.{ℕ_discrete}

abbrev full : Cache ℕ ℕ
full = record { max_entries = 2; entries = (1, 10) ∷ (2, 20) ∷ [] }

full-IsValid : IsValid ℕ_discrete full
unfolding find ℕ_discrete
full-IsValid = record { distinct = (refl, (refl, tt)); bounded = inr (omega arith) }

add_lem_example : Added ℕ_discrete 3 30 full (add ℕ_discrete 3 30 full)
add_lem_example = add_lem ℕ_discrete 3 30 full full-IsValid

get_lem_example :
    ((get ℕ_discrete 2 full).1 ≡ find ℕ_discrete 2 full.entries)
    × ((get ℕ_discrete 2 full).0.entries
        ≡ used ℕ_discrete 2 (find ℕ_discrete 2 full.entries) full.entries)
    × (find ℕ_discrete 1 (get ℕ_discrete 2 full).0.entries ≡ find ℕ_discrete 1 full.entries)
    × (length (get ℕ_discrete 2 full).0.entries ≡ length full.entries)
    × IsValid ℕ_discrete (get ℕ_discrete 2 full).0
get_lem_example = get_lem ℕ_discrete 2 1 full full-IsValid
