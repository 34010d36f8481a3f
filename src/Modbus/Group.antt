-- ===== src/Modbus/Group.antt =====
-- `groupRegisters`: addresses of one type that touch or overlap become one block read.
pub mod Parts
pub mod Blocks
use mathlib.Core.List.{Perm, Pairwise}
use ocpp_gw.Base.{
  ℕ, ◌+◌, ◌-◌, ◌%◌, ◌^◌, ◌≤◌, max, Bool, true, false, List, [], ◌∷◌, ◌++◌, leb, if◌then◌else◌, All,
}
use ocpp_gw.Device.Types.{
  RegisterType, coil, discrete_input, input_register, holding_register, epc, RegisterAddress,
}

pub record RegisterGroup : Type 0 where
  pub type : RegisterType
  pub start_address : ℕ
  pub count : ℕ
  pub addresses : List RegisterAddress

-- Each address starts no later than those after it.
abbrev pub IsSorted : List RegisterAddress → Type 0
IsSorted [] = Unit
IsSorted (a ∷ rest) = All (λ b. a.address ≤ b.address) rest × IsSorted rest

-- `std::sort` by `address`: some arrangement of the same elements in ascending order.
pub record Sorter : Type 0 where
  pub sort : List RegisterAddress → List RegisterAddress
  pub sort-perm : (as' : List RegisterAddress) → Perm (sort as') as'
  pub sort-IsSorted : (as' : List RegisterAddress) → IsSorted (sort as')

-- The group in hand: `start_address` is a `uint32_t`, `count` is cut to a `uint16_t`.
abbrev pub close : RegisterType → ℕ → ℕ → List RegisterAddress → RegisterGroup
close type start end' current = record {
  type = type;
  start_address = start;
  count = (end' + 2 ^ 32 - start) % 2 ^ 32 % 2 ^ 16;
  addresses = current;
}

-- `addr.address + addr.count` in a `uint32_t`.
abbrev pub end_of : RegisterAddress → ℕ
end_of a = (a.address + a.count) % 2 ^ 32

-- The loop over the sorted addresses after the first, with the last `push_back`.
unfoldable pub group_from :
    RegisterType → ℕ → ℕ → List RegisterAddress → List RegisterAddress → List RegisterGroup
group_from type start end' current [] = close type start end' current ∷ []
group_from type start end' current (a ∷ rest) =
    let extended = group_from type start (max end' (end_of a)) (current ++ (a ∷ [])) rest in
    let started = group_from type a.address (end_of a) (a ∷ []) rest in
    if leb a.address end' then extended else close type start end' current ∷ started

unfoldable pub group_sorted : RegisterType → List RegisterAddress → List RegisterGroup
unfolding group_from
group_sorted type [] = []
group_sorted type (a ∷ rest) = group_from type a.address (end_of a) (a ∷ []) rest

abbrev pub same_type : RegisterType → RegisterType → Bool
same_type coil coil = true
same_type discrete_input discrete_input = true
same_type input_register input_register = true
same_type holding_register holding_register = true
same_type epc epc = true
same_type RegisterType.unknown RegisterType.unknown = true
same_type _ _ = false

-- `type_groups[type]`
unfoldable pub of_type : RegisterType → List RegisterAddress → List RegisterAddress
of_type type [] = []
of_type type (a ∷ rest) =
    let others = of_type type rest in if same_type a.type type then a ∷ others else others

-- The loop over the map of types, in the order of the enumeration; a type with no address has no entry.
unfoldable pub group_registers : Sorter → List RegisterAddress → List RegisterGroup
unfolding of_type group_sorted
group_registers s as' =
    group_sorted coil (s.sort (of_type coil as'))
    ++ (group_sorted discrete_input (s.sort (of_type discrete_input as'))
        ++ (group_sorted input_register (s.sort (of_type input_register as'))
            ++ (group_sorted holding_register (s.sort (of_type holding_register as'))
                ++ (group_sorted epc (s.sort (of_type epc as'))
                    ++ group_sorted RegisterType.unknown
                        (s.sort (of_type RegisterType.unknown as'))))))
