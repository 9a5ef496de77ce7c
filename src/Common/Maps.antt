-- ===== src/Common/Maps.antt =====
-- A hash map with numeric keys, as an association list: inserting a key removes its old entry.
use Prim.Native.Nat.{ℕ}
use mathlib.Core.Path.{◌≡◌, refl}
use mathlib.Core.Option.{Option, none, some}
use mathlib.Core.List.{List, [], ◌∷◌}
use native.Mathlib.Omega.{arith}
use thespis_impl_remote.Common.Tests.{◌==◌, if◌then◌else◌}

abbrev pub Map : Type 0 → Type 0
Map V = List (ℕ × V)

module _ {V : Type 0} where
  unfoldable pub lookup : ℕ → Map V → Option V
  lookup k [] = none
  lookup k ((j, v) ∷ m) = if k == j then some v else lookup k m

  unfoldable pub remove : ℕ → Map V → Map V
  remove k [] = []
  remove k ((j, v) ∷ m) = let rest = remove k m in if k == j then rest else (j, v) ∷ rest

  unfoldable pub insert : ℕ → V → Map V → Map V
  unfolding remove
  insert k v m = (k, v) ∷ remove k m

  pub lookup-remove :
      (k j : ℕ) (m : Map V) → lookup k (remove j m) ≡ (if k == j then none else lookup k m)
  unfolding lookup remove
  lookup-remove k j [] = ground arith
  lookup-remove k j ((i, v) ∷ m) = ground (arith, lookup-remove k j m)

  pub lookup-insert :
      (k j : ℕ) (v : V) (m : Map V)
      → lookup k (insert j v m) ≡ (if k == j then some v else lookup k m)
  unfolding lookup insert
  lookup-insert k j v m = ground (arith, lookup-remove k j m)

  pub lookup-insert_self : (k : ℕ) (v : V) (m : Map V) → lookup k (insert k v m) ≡ some v
  lookup-insert_self k v m = ground (arith, lookup-insert k k v m)

  pub lookup-remove_self : (k : ℕ) (m : Map V) → lookup k (remove k m) ≡ none
  lookup-remove_self k m = ground (arith, lookup-remove k k m)

  pub lookup_empty : (k : ℕ) (m : Map V) → m ≡ [] → lookup k m ≡ none
  unfolding lookup
  lookup_empty k [] h = refl
  lookup_empty k (e ∷ m) h = cc
