-- ===== src/Prelude/Maps.antt =====
-- Maps from integers, as lists of their entries in some order: a key stands once.
use Prim.Native.Nat.{ℕ}
use mathlib.Core.Path.{◌≡◌, ◌∙◌}
use mathlib.Core.Option.{Option, none, some}
use mathlib.Core.List.{List, [], ◌∷◌}
use native.Mathlib.Omega.{arith}
use im_service.Prelude.Tests.{◌==◌, if◌then◌else◌}

abbrev pub Map {ℓ} : Type ℓ → Type ℓ
Map V = List (ℕ × V)

module _ {ℓ} {V : Type ℓ} where
  unfoldable pub value_at : ℕ → Map V → Option V
  value_at k [] = none
  value_at k ((j, v) ∷ m) = if j == k then some v else value_at k m

  unfoldable pub delete : ℕ → Map V → Map V
  delete k [] = []
  delete k ((j, v) ∷ m) = if j == k then delete k m else (j, v) ∷ delete k m

  unfoldable pub put : ℕ → V → Map V → Map V
  put k v m = (k, v) ∷ delete k m

  abbrev pub IsMap : Map V → Type ℓ
  IsMap [] = Unit {ℓ}
  IsMap ((j, v) ∷ m) = (value_at j m ≡ none) × IsMap m

  pub value_at-delete :
      (k j : ℕ) (m : Map V) → value_at j (delete k m) ≡ (if k == j then none else value_at j m)
  unfolding value_at delete
  value_at-delete k j [] = ground arith
  value_at-delete k j ((i, v) ∷ m) = ground (arith, value_at-delete k j m)

  pub value_at-put :
      (k j : ℕ) (v : V) (m : Map V)
      → value_at j (put k v m) ≡ (if k == j then some v else value_at j m)
  unfolding value_at put
  value_at-put k j v m = ground (arith, value_at-delete k j m)

  pub delete-IsMap : (k : ℕ) (m : Map V) → IsMap m → IsMap (delete k m)
  unfolding delete
  delete-IsMap k [] h = h
  delete-IsMap k ((j, v) ∷ m) (h, hs) = ground (arith, delete-IsMap k m hs, value_at-delete k j m)

  pub put-IsMap : (k : ℕ) (v : V) (m : Map V) → IsMap m → IsMap (put k v m)
  unfolding put
  put-IsMap k v m h = (value_at-delete k k m ∙ ground arith, delete-IsMap k m h)
