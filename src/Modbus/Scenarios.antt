-- ===== src/Modbus/Scenarios.antt =====
-- The theorems on registers at concrete addresses and words, with insertion sort for `std::sort`.
use mathlib.Core.List.{Perm}
use mathlib.Core.List.Perm
use ocpp_gw.Base.{ℕ, ◌≤◌, refl, inl, inr, Bool-cases, List, [], ◌∷◌, leb, if◌then◌else◌, All, arith}
use ocpp_gw.Device.Types.{RegisterType, coil, holding_register, RegisterAddress}
use ocpp_gw.Modbus.Group.{IsSorted, Sorter, group_registers}
use ocpp_gw.Modbus.Group.Blocks.{
  IsSound, addresses_of, group_registers-IsSound, group_registers-Perm,
}
use ocpp_gw.Base.{pos, none}
use ocpp_gw.Modbus.Read.{Line, fails, read_multiple_registers}
use ocpp_gw.Modbus.ReadAll.{answered, read_multiple_registers-Perm}

abbrev insert : RegisterAddress → List RegisterAddress → List RegisterAddress
insert a [] = a ∷ []
insert a (b ∷ rest) =
    let later = insert a rest in if leb a.address b.address then a ∷ b ∷ rest else b ∷ later

abbrev sort : List RegisterAddress → List RegisterAddress
sort [] = []
sort (a ∷ rest) = insert a (sort rest)

insert-Perm : (a : RegisterAddress) (as' : List RegisterAddress) → Perm (insert a as') (a ∷ as')
insert-Perm a [] = Perm.refl _
insert-Perm a (b ∷ rest) = elim (Bool-cases (leb a.address b.address)) [
  | inl q ↦ rw q (Perm.refl _)
  | inr q ↦ rw q (Perm.trans (Perm.cons b (insert-Perm a rest)) (Perm.swap a b rest))
]

sort-Perm : (as' : List RegisterAddress) → Perm (sort as') as'
sort-Perm [] = Perm.refl []
sort-Perm (a ∷ rest) = Perm.trans (insert-Perm a (sort rest)) (Perm.cons a (sort-Perm rest))

abbrev Above : ℕ → List RegisterAddress → Type 0
Above n as' = All (λ b. n ≤ b.address) as'

Above-mono : (n m : ℕ) (as' : List RegisterAddress) → n ≤ m → Above m as' → Above n as'
Above-mono n m [] h w = tt
Above-mono n m (a ∷ rest) h (w, ws) = (omega arith, Above-mono n m rest h ws)

insert-Above :
    (n : ℕ) (a : RegisterAddress) (as' : List RegisterAddress)
    → n ≤ a.address
    → Above n as'
    → Above n (insert a as')
insert-Above n a [] h w = (h, tt)
insert-Above n a (b ∷ rest) h (w, ws) = elim (Bool-cases (leb a.address b.address)) [
  | inl q ↦ rw q (h, (w, ws))
  | inr q ↦ rw q (w, insert-Above n a rest h ws)
]

insert-IsSorted :
    (a : RegisterAddress) (as' : List RegisterAddress) → IsSorted as' → IsSorted (insert a as')
insert-IsSorted a [] o = (tt, tt)
insert-IsSorted a (b ∷ rest) (o, os) = elim (Bool-cases (leb a.address b.address)) [
  | inl q ↦ rw q ((ground arith, Above-mono a.address b.address rest (ground arith) o), (o, os))
  | inr q ↦ rw q (insert-Above b.address a rest (ground arith) o, insert-IsSorted a rest os)
]

sort-IsSorted : (as' : List RegisterAddress) → IsSorted (sort as')
sort-IsSorted [] = tt
sort-IsSorted (a ∷ rest) = insert-IsSorted a (sort rest) (sort-IsSorted rest)

abbrev by_insertion : Sorter
by_insertion = record { sort = sort; sort-perm = sort-Perm; sort-IsSorted = sort-IsSorted }

abbrev register : RegisterType → ℕ → ℕ → RegisterAddress
register type address count = record {
  type = type;
  address = address;
  eoj_class_group_code = 0;
  eoj_class_code = 0;
  eoj_instance_code = 0;
  epc = 0;
  count = count;
}

-- Two holding registers that touch, one apart, and a coil.
abbrev wanted : List RegisterAddress
wanted =
    register holding_register 102 2
    ∷ register coil 7 1
    ∷ register holding_register 100 2
    ∷ register holding_register 500 1
    ∷ []

group_registers-IsSound_example : All IsSound (group_registers by_insertion wanted)
group_registers-IsSound_example =
    group_registers-IsSound by_insertion wanted
      (omega arith, (omega arith, (omega arith, (omega arith, tt))))

group_registers-Perm_example : Perm (addresses_of (group_registers by_insertion wanted)) wanted
group_registers-Perm_example = group_registers-Perm by_insertion wanted

-- A line on which every read fails; one address is out of the range of its type.
abbrev broken : Line
broken = record { read = λ type start n. fails (pos 110); strerror = λ code. "timeout" }

read_multiple_registers-Perm_example :
    Perm
      (answered (
        read_multiple_registers by_insertion none broken
          (register holding_register 10 2 ∷ register coil 70000 1 ∷ [])))
      (register holding_register 10 2 ∷ register coil 70000 1 ∷ [])
read_multiple_registers-Perm_example =
    read_multiple_registers-Perm by_insertion none broken
      (register holding_register 10 2 ∷ register coil 70000 1 ∷ [])
