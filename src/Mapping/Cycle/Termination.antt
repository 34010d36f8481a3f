-- ===== src/Mapping/Cycle/Termination.antt =====
-- The search ends: one call for each node that is not yet visited, and one more, is fuel enough.
use ocpp_gw.Base.{
  ℕ, zero, suc, ◌≤◌, ◌<◌, String, ◌≡◌, ◌⊎◌, inl, inr, refl, ap, Bool, Bool-cases, true, false,
  Option, none, some, List, [], ◌∷◌, length, str_eq, eq_iff, if◌then◌else◌, arith,
}
use ocpp_gw.Base.Dict.{lookup}
use ocpp_gw.Mapping.Cycle.{
  Dependencies, member, keys, neighbors, Marks, no_marks, enter, leave, then_scan, scan, has_cycle,
}

-- How many of some names are not visited.
unseen : List String → List String → ℕ
unseen [] visited = 0
unseen (k ∷ ks) visited = if member k visited then unseen ks visited else suc (unseen ks visited)

-- The names visited later.
abbrev Grows : List String → List String → Type 0
Grows xs ys = (u : String) → member u xs ≡ true → member u ys ≡ true

unseen-le : (ks xs ys : List String) → Grows xs ys → unseen ks ys ≤ unseen ks xs
unfolding unseen
unseen-le [] xs ys h = omega arith
unseen-le (k ∷ ks) xs ys h = ground (arith, unseen-le ks xs ys h, h k)

unseen-le-length : (ks xs : List String) → unseen ks xs ≤ length ks
unfolding unseen
unseen-le-length [] xs = omega arith
unseen-le-length (k ∷ ks) xs = ground (arith, unseen-le-length ks xs)

Grows-cons : (v : String) (xs : List String) → Grows xs (v ∷ xs)
Grows-cons v xs u h = ground arith

unseen-lt :
    (ks : List String) (v : String) (xs : List String)
    → member v ks ≡ true
    → member v xs ≡ false
    → unseen ks (v ∷ xs) < unseen ks xs
unfolding unseen
unseen-lt [] v xs m off = absurd (ground arith)
unseen-lt (k ∷ ks) v xs m off = elim (Bool-cases (str_eq k v)) [
  | inl same ↦ ground (arith, eq_iff k v, eq_iff v k, unseen-le ks xs (v ∷ xs) (Grows-cons v xs))
  | inr other ↦ ground (arith, eq_iff k v, eq_iff v k, unseen-lt ks v xs)
]

-- A name without an entry has no neighbors.
pub entry : (v : String) (g : Dependencies) → (member v (keys g) ≡ true) ⊎ (neighbors g v ≡ [])
unfolding neighbors lookup
entry v [] = inr refl
entry v ((k, s) ∷ g) = elim (Bool-cases (str_eq k v)) [
  | inl same ↦ inl (ground arith)
  | inr other ↦ elim (entry v g) [ inl m ↦ inl (ground arith) | inr e ↦ inr (ground arith) ]
]

length-keys : (g : Dependencies) → length (keys g) ≡ length g
length-keys [] = refl
length-keys (p ∷ g) = ap suc (length-keys g)

module _ (g : Dependencies) where
  -- A search that returns, with what was visited still visited.
  abbrev Returns : Marks → Option (Bool × Marks) → Type 0
  Returns m none = ⊥
  Returns m (some (b, m')) = Grows m.visited m'.visited

  -- A search that returns from marks that leave few enough nodes.
  abbrev Bounded : ℕ → (String → Marks → Option (Bool × Marks)) → Type 0
  Bounded fuel visit =
      (v : String) (m : Marks) → unseen (keys g) m.visited < fuel → Returns m (visit v m)

  Returns-then_scan :
      (m : Marks) (r : Option (Bool × Marks)) (next : Marks → Option (Bool × Marks))
      → Returns m r
      → ((m' : Marks) → Grows m.visited m'.visited → Returns m' (next m'))
      → Returns m (then_scan r next)
  Returns-then_scan m none next h k = h
  Returns-then_scan m (some (true, m')) next h k = h
  Returns-then_scan m (some (false, m')) next h k = go (next m') (k m' h)
    where
      go : (r : Option (Bool × Marks)) → Returns m' r → Returns m r
      go none l = l
      go (some (b, m'')) l = λ u a. l u (h u a)

  scan-Returns :
      (fuel : ℕ) (visit : String → Marks → Option (Bool × Marks)) (m : Marks) (xs : List String)
      → Bounded fuel visit
      → unseen (keys g) m.visited < fuel
      → Returns m (scan visit m xs)
  unfolding scan
  scan-Returns fuel visit m [] visits h = λ u a. a
  scan-Returns fuel visit m (x ∷ xs) visits h = elim (Bool-cases (member x m.path)) [
    | inl back ↦ rw (scan, back) (λ u a. a)
    | inr free ↦
        rw (scan, free)
          (Returns-then_scan m (visit x m) (λ m'. scan visit m' xs) (visits x m h)
            (λ m' grows.
              scan-Returns fuel visit m' xs visits
                (omega (arith, unseen-le (keys g) m.visited m'.visited grows))))
  ]

  leave-Returns :
      (v : String) (m : Marks) (r : Option (Bool × Marks))
      → Returns (enter v m) r
      → Returns m (leave v r)
  leave-Returns v m none h = h
  leave-Returns v m (some (true, m')) h = λ u a. h u (Grows-cons v m.visited u a)
  leave-Returns v m (some (false, m')) h = λ u a. h u (Grows-cons v m.visited u a)

  has_cycle-Returns : (fuel : ℕ) → Bounded fuel (has_cycle fuel g)
  unfolding has_cycle scan
  has_cycle-Returns zero v m h = elim h [ ]
  has_cycle-Returns (suc fuel) v m h = elim (Bool-cases (member v m.visited)) [
    | inl seen ↦ rw (has_cycle, seen) (λ u a. a)
    | inr fresh ↦
        rw (has_cycle, fresh)
          (leave-Returns v m (scan (has_cycle fuel g) (enter v m) (neighbors g v))
            (elim (entry v g) [
              | inl m' ↦
                  scan-Returns fuel (has_cycle fuel g) (enter v m) (neighbors g v)
                    (has_cycle-Returns fuel)
                    (omega (arith, unseen-lt (keys g) v m.visited m' fresh))
              | inr e ↦ rw e (λ u a. a)
            ]))
  ]

  some_of_Returns :
      (m : Marks) (r : Option (Bool × Marks))
      → Returns m r
      → (b : Bool) × ((m' : Marks) × (r ≡ some (b, m')))
  some_of_Returns m none h = absurd h
  some_of_Returns m (some (b, m')) h = (b, (m', refl))

  -- From no marks, one round for each node of the graph and one more are enough.
  pub has_cycle-some :
      (fuel : ℕ) (v : String)
      → length g < fuel
      → (b : Bool) × ((m : Marks) × (has_cycle fuel g v no_marks ≡ some (b, m)))
  has_cycle-some fuel v h = some_of_Returns no_marks (has_cycle fuel g v no_marks) (
      has_cycle-Returns fuel v no_marks
        (omega (arith, unseen-le-length (keys g) [], length-keys g)))
