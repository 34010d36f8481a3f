-- ===== src/Base/Ordered.antt =====
-- The order of the keys of a `std::map<std::string, V>`, which an insertion keeps.
use Prim.Native.Nat.{Ordering}
use Prim.Native.String.{String, [] as nil, ◌∷◌ as ◌⊳◌, compare}
use Prim.Native.String.compare
use mathlib.Core.Path.{◌≡◌, refl}
use mathlib.Core.List.{[], ◌∷◌}
use mathlib.Core.Option.{none}
use native.Mathlib.Omega.{arith}
use text.Mathlib.TextEquality.{eq_iff, path_by_compare}
use text.Mathlib.TextPositions.{compare_refl}
use ocpp_gw.Base.Dict.{Dict, lookup, insert}

compare_turned : (s t : String) → compare s t ≡ Ordering.gt → compare t s ≡ Ordering.lt
compare_turned nil nil h = absurd (ground (arith, compare.nil-nil))
compare_turned nil (d ⊳ t) h = absurd (ground (arith, compare.nil-cons d t))
compare_turned (c ⊳ s) nil h = compare.nil-cons c s
compare_turned (c ⊳ s) (d ⊳ t) h =
    ground (arith, compare.cons-cons c d s t, compare.cons-cons d c t s, compare_turned s t)

compare_trans :
    (s t u : String)
    → compare s t ≡ Ordering.lt
    → compare t u ≡ Ordering.lt
    → compare s u ≡ Ordering.lt
compare_trans nil nil u h k = absurd (ground (arith, compare.nil-nil))
compare_trans nil (d ⊳ t) nil h k = absurd (ground (arith, compare.cons-nil d t))
compare_trans nil (d ⊳ t) (e ⊳ u) h k = compare.nil-cons e u
compare_trans (c ⊳ s) nil u h k = absurd (ground (arith, compare.cons-nil c s))
compare_trans (c ⊳ s) (d ⊳ t) nil h k = absurd (ground (arith, compare.cons-nil d t))
compare_trans (c ⊳ s) (d ⊳ t) (e ⊳ u) h k = ground (
  arith,
  compare.cons-cons c d s t,
  compare.cons-cons d e t u,
  compare.cons-cons c e s u,
  compare_trans s t u,
)

module _ {ℓ} {V : Type ℓ} where
  -- Every key of the map comes after this one.
  abbrev pub IsBefore : String → Dict V → Type ℓ
  IsBefore k [] = Unit
  IsBefore k ((j, v) ∷ m) = (compare k j ≡ Ordering.lt) × IsBefore k m

  abbrev pub IsOrdered : Dict V → Type ℓ
  IsOrdered [] = Unit
  IsOrdered ((k, v) ∷ m) = IsBefore k m × IsOrdered m

  IsBefore-trans :
      (k j : String) (m : Dict V) → compare k j ≡ Ordering.lt → IsBefore j m → IsBefore k m
  IsBefore-trans k j [] h b = tt
  IsBefore-trans k j ((i, v) ∷ m) h (b, bs) = (compare_trans k j i h b, IsBefore-trans k j m h bs)

  insert-IsBefore :
      (j k : String) (v : V) (m : Dict V)
      → compare j k ≡ Ordering.lt
      → IsBefore j m
      → IsBefore j (insert k v m)
  unfolding insert
  insert-IsBefore j k v [] h b = (h, tt)
  insert-IsBefore j k v ((i, w) ∷ m) h (b, bs) = ground (arith, insert-IsBefore j k v m h bs)

  pub insert-IsOrdered : (k : String) (v : V) (m : Dict V) → IsOrdered m → IsOrdered (insert k v m)
  unfolding insert
  insert-IsOrdered k v [] o = (tt, tt)
  insert-IsOrdered k v ((j, w) ∷ m) (b, o) = ground (
    arith,
    path_by_compare k j,
    compare_turned k j,
    IsBefore-trans k j m,
    insert-IsBefore j k v m,
    insert-IsOrdered k v m o,
  )

  pub lookup-IsBefore : (k : String) (m : Dict V) → IsBefore k m → lookup k m ≡ none
  unfolding lookup
  lookup-IsBefore k [] b = refl
  lookup-IsBefore k ((j, v) ∷ m) (b, bs) =
      ground (arith, eq_iff j k, compare_refl k, lookup-IsBefore k m bs)
