-- ===== src/Prelude/Maps.antt =====
-- `HashMap` with number keys as an association list. An insertion replaces, so keys stay distinct.
use Prim.Native.Nat.{ℕ}
use mathlib.Core.Path.{◌≡◌, refl}
use mathlib.Core.Bool.{true}
use mathlib.Core.Option.{Option, none, some}
use mathlib.Core.List.{List, [], ◌∷◌}
use native.Mathlib.Omega.{arith}
use delos_rust.Prelude.Tests.{◌==◌, if◌then◌else◌, is_empty}

abbrev pub Map {ℓ} : Type ℓ → Type ℓ
Map V = List (ℕ × V)

module _ {ℓ} {V : Type ℓ} where
  unfoldable pub lookup : ℕ → Map V → Option V
  lookup k [] = none
  lookup k ((j, v) ∷ m) = if j == k then some v else lookup k m

  unfoldable pub insert : ℕ → V → Map V → Map V
  insert key value [] = (key, value) ∷ []
  insert key value ((j, w) ∷ rest) =
      let longer = insert key value rest in
      if j == key then (key, value) ∷ rest else (j, w) ∷ longer

  unfoldable pub remove : ℕ → Map V → Map V
  remove k [] = []
  remove k ((j, w) ∷ m) = let rest = remove k m in if j == k then rest else (j, w) ∷ rest

  pub lookup-nil : (k : ℕ) → lookup k [] ≡ none
  unfolding lookup
  lookup-nil k = refl

  pub lookup-nil-ne : (k : ℕ) (v : V) → ¬ (lookup k [] ≡ some v)
  lookup-nil-ne k v e = cc (lookup-nil k)

  pub lookup-insert :
      (key j : ℕ) (value : V) (m : Map V)
      → lookup j (insert key value m) ≡ (if key == j then some value else lookup j m)
  unfolding lookup insert
  lookup-insert key j value [] = refl
  lookup-insert key j value ((i, w) ∷ m) = ground (arith, lookup-insert key j value m)

  pub lookup-remove :
      (k j : ℕ) (m : Map V) → lookup j (remove k m) ≡ (if k == j then none else lookup j m)
  unfolding lookup remove
  lookup-remove k j [] = ground arith
  lookup-remove k j ((i, w) ∷ m) = ground (arith, lookup-remove k j m)

  -- A map that shows a key is not empty, and one that shows none is.
  pub is_empty_of_lookup : (m : Map V) → ((k : ℕ) → lookup k m ≡ none) → is_empty m ≡ true
  unfolding lookup
  is_empty_of_lookup [] h = refl
  is_empty_of_lookup ((j, v) ∷ m) h = ground (arith, h j)

  pub lookup_of_is_empty : (k : ℕ) (m : Map V) → is_empty m ≡ true → lookup k m ≡ none
  unfolding lookup
  lookup_of_is_empty k [] h = refl
  lookup_of_is_empty k ((j, v) ∷ m) h = cc
