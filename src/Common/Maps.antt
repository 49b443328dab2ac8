-- ===== src/Common/Maps.antt =====
-- unordered_map from strings, as an association list whose order means nothing.
use mathlib.Core.Path.{◌≡◌, refl}
use mathlib.Core.Option.{Option, none, some}
use mathlib.Core.List.{List, [], ◌∷◌}
use native.Mathlib.Omega.{arith}
use consolidated_book.Common.Tests.{if◌then◌else◌}
use consolidated_book.Common.Texts.{Text, text_eq, text_eq_iff}

module _ {A : Type 0} where
  -- find
  unfoldable pub lookup : Text → List (Text × A) → Option A
  lookup k [] = none
  lookup k ((j, a) ∷ m) = let rest = lookup k m in if text_eq j k then some a else rest

  -- m[k] = a
  unfoldable pub assign : Text → A → List (Text × A) → List (Text × A)
  assign k a [] = (k, a) ∷ []
  assign k a ((j, b) ∷ m) =
      let rest = assign k a m in if text_eq j k then (j, a) ∷ m else (j, b) ∷ rest

  pub lookup-assign :
      (k j : Text) (a : A) (m : List (Text × A))
      → lookup j (assign k a m) ≡ (if text_eq k j then some a else lookup j m)
  unfolding lookup assign
  lookup-assign k j a [] = refl
  lookup-assign k j a ((i, b) ∷ m) =
      ground (arith, text_eq_iff k j, text_eq_iff i k, text_eq_iff i j, lookup-assign k j a m)
