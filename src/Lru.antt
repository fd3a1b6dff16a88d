-- ===== src/Lru.antt =====
-- lru/lru.go: the cache of least recent use. `entries` is the list `ll`, front first. The map `cache`
-- holds the list's elements by their keys, so a look-up in it is a look-up by key in the list; the
-- zero Cache, whose map is nil, behaves as an empty one. Each call returns what it gives to
-- `OnEvicted`, in order.
pub mod Laws
use im_service.Prelude.{
  ℕ, zero, suc, Bool, not, ◌&&◌, List, [], ◌∷◌, Option, none, some, length, ltb, ◌==◌,
  if◌then◌else◌,
}
use mathlib.Core.Logic.{ite}

pub record Cache {ℓ} (K V : Type ℓ) : Type ℓ where
  pub max_entries : ℕ
  pub entries : List (K × V)

pub new_cache {ℓ} : {K V : Type ℓ} → ℕ → Cache K V
new_cache max_entries = record { max_entries = max_entries; entries = [] }

module _ {ℓ} {K V : Type ℓ} where
  -- `c.ll.Back()`.
  unfoldable pub back : List (K × V) → Option (K × V)
  back [] = none
  back (e ∷ []) = some e
  back (e ∷ e' ∷ l) = back (e' ∷ l)

  unfoldable pub len : Cache K V → ℕ
  len c = length c.entries

module _ {ℓ} {K V : Type ℓ} (dec : Discrete K) where
  -- `c.cache[key]`.
  unfoldable pub find : K → List (K × V) → Option V
  find k [] = none
  find k ((j, v) ∷ l) = ite (dec j k) (some v) (find k l)

  -- `c.ll.Remove(e)` for the element of a key.
  unfoldable pub unlink : K → List (K × V) → List (K × V)
  unlink k [] = []
  unlink k ((j, v) ∷ l) = ite (dec j k) l ((j, v) ∷ unlink k l)

  -- `removeElement`.
  unfoldable pub remove_element : K → V → Cache K V → Cache K V × List (K × V)
  remove_element k v c = (record c { entries = unlink k c.entries }, (k, v) ∷ [])

  unfoldable pub remove_oldest : Cache K V → Cache K V × List (K × V)
  unfolding remove_element
  remove_oldest c = elim (back c.entries) [ none ↦ (c, []) | some (k, v) ↦ remove_element k v c ]

  unfoldable pub add : K → V → Cache K V → Cache K V × List (K × V)
  add k v c = elim (find k c.entries) [
    | some old ↦ (record c { entries = (k, v) ∷ unlink k c.entries }, [])
    | none ↦
        let c' : Cache K V = record c { entries = (k, v) ∷ c.entries } in
        if not (c.max_entries == 0) && ltb c.max_entries (length c'.entries)
        then remove_oldest c'
        else (c', [])
  ]

  -- `Get`: a hit moves to the front.
  unfoldable pub get : K → Cache K V → Cache K V × Option V
  get k c = elim (find k c.entries) [
    | some v ↦ (record c { entries = (k, v) ∷ unlink k c.entries }, some v)
    | none ↦ (c, none)
  ]

  unfoldable pub remove : K → Cache K V → Cache K V × List (K × V)
  unfolding remove_element
  remove k c = elim (find k c.entries) [ some v ↦ remove_element k v c | none ↦ (c, []) ]
