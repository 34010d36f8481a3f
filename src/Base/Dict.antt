-- ===== src/Base/Dict.antt =====
-- `std::map<std::string, V>` as an association list in the order of the keys: `std::string`
-- compares bytes, which is the order of the code points.
use Prim.Native.Nat.{Ordering}
use Prim.Native.String.{String, compare}
use mathlib.Core.Path.{◌≡◌, refl}
use mathlib.Core.List.{List, [], ◌∷◌, map}
use mathlib.Core.Option.{Option, none, some}
use native.Mathlib.Omega.{arith}
use text.Mathlib.Text.{◌==◌ as str_eq}
use text.Mathlib.TextEquality.{eq_iff, path_by_compare}
use text.Mathlib.TextPositions.{compare_refl}
use ocpp_gw.Base.Tests.{if◌then◌else◌}

abbrev pub Dict {ℓ} : Type ℓ → Type ℓ
Dict V = List (String × V)

module _ {ℓ} {V : Type ℓ} where
  -- `find`
  unfoldable pub lookup : String → Dict V → Option V
  lookup k [] = none
  lookup k ((j, v) ∷ m) = if str_eq j k then some v else lookup k m

  -- `m[k] = v`
  unfoldable pub insert : String → V → Dict V → Dict V
  insert k v [] = (k, v) ∷ []
  insert k v ((j, w) ∷ m) =
      let rest = insert k v m in
      elim (compare k j) [
        | Ordering.lt ↦ (k, v) ∷ (j, w) ∷ m
        | Ordering.eq ↦ (k, v) ∷ m
        | Ordering.gt ↦ (j, w) ∷ rest
      ]

  unfoldable pub erase : String → Dict V → Dict V
  erase k [] = []
  erase k ((j, w) ∷ m) = let rest = erase k m in if str_eq j k then rest else (j, w) ∷ rest

  -- The values in the order of iteration.
  unfoldable pub values : Dict V → List V
  values = map (λ p. p.1)

  pub lookup-insert :
      (k j : String) (v : V) (m : Dict V)
      → lookup j (insert k v m) ≡ (if str_eq k j then some v else lookup j m)
  unfolding lookup insert
  lookup-insert k j v [] = refl
  lookup-insert k j v ((i, w) ∷ m) =
      ground
        (arith, eq_iff k j, eq_iff i j, path_by_compare k i, compare_refl k, lookup-insert k j v m)

  pub lookup-erase :
      (k j : String) (m : Dict V) → lookup j (erase k m) ≡ (if str_eq k j then none else lookup j m)
  unfolding lookup erase
  lookup-erase k j [] = ground arith
  lookup-erase k j ((i, w) ∷ m) =
      ground (arith, eq_iff i k, eq_iff i j, eq_iff k j, lookup-erase k j m)
