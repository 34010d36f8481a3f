-- ===== src/Modbus/Group/Blocks.antt =====
-- The blocks of `groupRegisters` cover the addresses that they stand for, and keep every address.
use mathlib.Core.List.{Perm}
use mathlib.Core.List.Perm
use mathlib.Core.List.{Permᴰ}
use mathlib.Core.Logic.{∥∥₁_elim}
use native.Mathlib.Bridge.{le_prop}
use ocpp_gw.Base.{
  ℕ, suc, sym, subst, ◌+◌, ◌≤◌, ◌<◌, ◌≡◌, refl, ap, ◌∙◌, max, true, List, [], ◌∷◌, ◌++◌, leb, inl,
  inr, Bool-cases, All, All-append, append_assoc, arith,
}
use ocpp_gw.Device.Types.{
  RegisterType, coil, discrete_input, input_register, holding_register, epc, RegisterAddress,
}
use ocpp_gw.Modbus.Group.{
  RegisterGroup, IsSorted, close, end_of, group_from, group_sorted, of_type, same_type,
  group_registers, Sorter,
}
use ocpp_gw.Modbus.Group.Parts.{parts-Perm}

-- The block is of the address's type and holds all its registers.
abbrev pub Covers : RegisterGroup → RegisterAddress → Type 0
Covers g a =
    (a.type ≡ g.type)
    × (g.start_address ≤ a.address)
    × (a.address + a.count ≤ g.start_address + g.count)

-- The registers asked for end below 65536.
abbrev pub Ends : RegisterAddress → Type 0
Ends a = a.address + a.count < 65536

abbrev Fits : RegisterType → RegisterAddress → Type 0
Fits type a = (a.type ≡ type) × Ends a

abbrev pub addresses_of : List RegisterGroup → List RegisterAddress
addresses_of [] = []
addresses_of (g ∷ gs) = g.addresses ++ addresses_of gs

-- Within the bounds of the group in hand.
abbrev Within : RegisterType → ℕ → ℕ → RegisterAddress → Type 0
Within type start end' a = (a.type ≡ type) × (start ≤ a.address) × (a.address + a.count ≤ end')

Within-mono :
    (type : RegisterType) (start low high : ℕ) (as' : List RegisterAddress)
    → low ≤ high
    → All (Within type start low) as'
    → All (Within type start high) as'
Within-mono type start low high [] h w = tt
Within-mono type start low high (a ∷ rest) h ((t, w, k), ws) =
    ((t, w, omega arith), Within-mono type start low high rest h ws)

close-Covers :
    (type : RegisterType) (start end' : ℕ) (as' : List RegisterAddress)
    → start ≤ end'
    → end' < 65536
    → All (Within type start end') as'
    → All (Covers (close type start end' as')) as'
close-Covers type start end' as' h k w = go as' w
  where
    go :
        (bs : List RegisterAddress)
        → All (Within type start end') bs
        → All (Covers (close type start end' as')) bs
    go [] w = tt
    go (b ∷ bs) ((t, w, q), ws) = ((t, omega arith, omega arith), go bs ws)

-- A block as it must be: it covers all its addresses.
abbrev pub IsSound : RegisterGroup → Type 0
IsSound g = All (Covers g) g.addresses

abbrev Ascends : ℕ → List RegisterAddress → Type 0
Ascends start as' = All (λ b. start ≤ b.address) as'

Ascends-mono :
    (low high : ℕ) (as' : List RegisterAddress) → low ≤ high → Ascends high as' → Ascends low as'
Ascends-mono low high [] h w = tt
Ascends-mono low high (a ∷ rest) h (w, ws) = (omega arith, Ascends-mono low high rest h ws)

group_from-IsSound :
    (type : RegisterType) (start end' : ℕ) (current rest : List RegisterAddress)
    → start ≤ end'
    → end' < 65536
    → All (Within type start end') current
    → All (Fits type) rest
    → Ascends start rest
    → IsSorted rest
    → All IsSound (group_from type start end' current rest)
unfolding group_from
group_from-IsSound type start end' current [] h k w e l o =
    (close-Covers type start end' current h k w, tt)
group_from-IsSound type start end' current (a ∷ rest) h k w ((t, e), es) (l, ls) (o, os) =
    elim (Bool-cases (leb a.address end')) [
      | inl q ↦ rw q (
          group_from-IsSound type start (max end' (end_of a)) (current ++ (a ∷ [])) rest
            (omega arith) (omega arith)
            (All-append (Within type start (max end' (end_of a))) current (a ∷ [])
              (Within-mono type start end' (max end' (end_of a)) current (omega arith) w)
              ((t, l, omega arith), tt))
            es ls os)
      | inr q ↦ rw q (
        close-Covers type start end' current h k w,
        group_from-IsSound type a.address (end_of a) (a ∷ []) rest (omega arith) (omega arith)
            ((t, omega arith, omega arith), tt) es o os,
      )
    ]

group_from-addresses :
    (type : RegisterType) (start end' : ℕ) (current rest : List RegisterAddress)
    → addresses_of (group_from type start end' current rest) ≡ current ++ rest
unfolding group_from
group_from-addresses type start end' current [] = refl
group_from-addresses type start end' current (a ∷ rest) = elim (Bool-cases (leb a.address end')) [
  | inl q ↦ rw q (
      group_from-addresses type start (max end' (end_of a)) (current ++ (a ∷ [])) rest
      ∙ append_assoc current (a ∷ []) rest)
  | inr q ↦
      rw q (ap (λ x. current ++ x) (group_from-addresses type a.address (end_of a) (a ∷ []) rest))
]

group_sorted-IsSound :
    (type : RegisterType) (as' : List RegisterAddress)
    → All (Fits type) as'
    → IsSorted as'
    → All IsSound (group_sorted type as')
unfolding group_sorted
group_sorted-IsSound type [] e o = tt
group_sorted-IsSound type (a ∷ rest) ((t, e), es) (o, os) =
    group_from-IsSound type a.address (end_of a) (a ∷ []) rest (omega arith) (omega arith)
      ((t, omega arith, omega arith), tt) es o os

group_sorted-addresses :
    (type : RegisterType) (as' : List RegisterAddress) → addresses_of (group_sorted type as') ≡ as'
unfolding group_sorted
group_sorted-addresses type [] = refl
group_sorted-addresses type (a ∷ rest) =
    group_from-addresses type a.address (end_of a) (a ∷ []) rest

addresses_of-append :
    (gs hs : List RegisterGroup) → addresses_of (gs ++ hs) ≡ addresses_of gs ++ addresses_of hs
addresses_of-append [] hs = refl
addresses_of-append (g ∷ gs) hs =
    ap (λ x. g.addresses ++ x) (addresses_of-append gs hs)
    ∙ sym (append_assoc g.addresses (addresses_of gs) (addresses_of hs))

same_type_eq : (t u : RegisterType) → same_type t u ≡ true → t ≡ u
same_type_eq t u = ground arith

of_type-Fits :
    (type : RegisterType) (as' : List RegisterAddress)
    → All Ends as'
    → All (Fits type) (of_type type as')
unfolding of_type
of_type-Fits type [] e = tt
of_type-Fits type (a ∷ rest) (e, es) = elim (Bool-cases (same_type a.type type)) [
  | inl q ↦ rw q ((same_type_eq a.type type q, e), of_type-Fits type rest es)
  | inr q ↦ rw q (of_type-Fits type rest es)
]

module _ (type : RegisterType) where
  Fits-IsProp : (a : RegisterAddress) → IsProp (Fits type a)
  Fits-IsProp a = hlevel (le_prop {n = suc (a.address + a.count)} {m = 65536})

  All-Fits-IsProp : (as' : List RegisterAddress) → IsProp (All (Fits type) as')
  All-Fits-IsProp [] = hlevel
  All-Fits-IsProp (a ∷ rest) = hlevel (Fits-IsProp a, All-Fits-IsProp rest)

  Fits-Permᴰ :
      {as' bs : List RegisterAddress} → Permᴰ as' bs → All (Fits type) as' → All (Fits type) bs
  Fits-Permᴰ Permᴰ.nil e = e
  Fits-Permᴰ (Permᴰ.cons q d) (e, es) = (subst (Fits type) q e, Fits-Permᴰ d es)
  Fits-Permᴰ (Permᴰ.swap p q) (e, (k, es)) = (subst (Fits type) q k, (subst (Fits type) p e, es))
  Fits-Permᴰ (Permᴰ.trans d k) e = Fits-Permᴰ k (Fits-Permᴰ d e)

  Fits-Perm :
      {as' bs : List RegisterAddress} → Perm as' bs → All (Fits type) as' → All (Fits type) bs
  Fits-Perm {bs = bs} p e = ∥∥₁_elim p (All-Fits-IsProp bs) (λ d. Fits-Permᴰ d e)

module _ (s : Sorter) where
  sorted-IsSound :
      (type : RegisterType) (as' : List RegisterAddress)
      → All Ends as'
      → All IsSound (group_sorted type (s.sort (of_type type as')))
  sorted-IsSound type as' e =
      group_sorted-IsSound type (s.sort (of_type type as'))
        (Fits-Perm type (Perm.symm (s.sort-perm (of_type type as'))) (of_type-Fits type as' e))
        (s.sort-IsSorted (of_type type as'))

  -- If every address asked for ends below 65536, every block covers each of the addresses grouped in it:
  -- it is of the address's register type, starts no later and ends no earlier.
  pub group_registers-IsSound :
      (as' : List RegisterAddress) → All Ends as' → All IsSound (group_registers s as')
  unfolding group_registers
  group_registers-IsSound as' e = All-append IsSound _ _ (sorted-IsSound coil as' e) (
      All-append IsSound _ _ (sorted-IsSound discrete_input as' e) (
        All-append IsSound _ _ (sorted-IsSound input_register as' e) (
          All-append IsSound _ _ (sorted-IsSound holding_register as' e) (
            All-append IsSound _ _ (sorted-IsSound epc as' e)
              (sorted-IsSound RegisterType.unknown as' e)))))

  -- The addresses of one type, as the blocks of that type hold them.
  sorted-Perm :
      (type : RegisterType) (as' : List RegisterAddress) (gs : List RegisterGroup)
      {rest : List RegisterAddress}
      → Perm (addresses_of gs) rest
      → Perm
          (addresses_of (group_sorted type (s.sort (of_type type as')) ++ gs))
          (of_type type as' ++ rest)
  sorted-Perm type as' gs h =
      rw
        (
          addresses_of-append (group_sorted type (s.sort (of_type type as'))) gs,
          group_sorted-addresses type (s.sort (of_type type as')),
        )
        (Perm.append (s.sort-perm (of_type type as')) h)

  last-Perm :
      (type : RegisterType) (as' : List RegisterAddress)
      → Perm (addresses_of (group_sorted type (s.sort (of_type type as')))) (of_type type as')
  last-Perm type as' =
      rw (group_sorted-addresses type (s.sort (of_type type as'))) (s.sort-perm (of_type type as'))

  -- The addresses that the blocks hold, one block after the other, are the addresses asked for in some
  -- order: none is lost and none is read twice.
  pub group_registers-Perm :
      (as' : List RegisterAddress) → Perm (addresses_of (group_registers s as')) as'
  unfolding group_registers
  group_registers-Perm as' =
      Perm.trans
        (sorted-Perm coil as' _ (
          sorted-Perm discrete_input as' _ (
            sorted-Perm input_register as' _ (
              sorted-Perm holding_register as' _
                (sorted-Perm epc as' _ (last-Perm RegisterType.unknown as'))))))
        (parts-Perm as')
