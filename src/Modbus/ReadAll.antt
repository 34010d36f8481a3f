-- ===== src/Modbus/ReadAll.antt =====
-- `readMultipleRegisters` answers for every address asked for.
use mathlib.Core.List.{Perm, perm_middle}
use mathlib.Core.List.Perm
use ocpp_gw.Base.{
  ◌≡◌, refl, sym, ap, ◌∙◌, subst, String, Bool-cases, inl, inr, Option, none, some, List, [], ◌∷◌,
  ◌++◌, map,
}
use ocpp_gw.Device.Types.{RegisterAddress, ReadResult}
use ocpp_gw.Modbus.Validate.{validate_register_address}
use ocpp_gw.Modbus.Group.{RegisterGroup, Sorter, group_registers}
use ocpp_gw.Modbus.Group.Blocks.{addresses_of, group_registers-Perm}
use ocpp_gw.Modbus.Read.{
  Line, Entry, group_result, read_group, read_groups, valid_addresses, invalid_entries,
  read_multiple_registers, refused,
}

-- The addresses that have an entry.
abbrev pub answered : List Entry → List RegisterAddress
answered [] = []
answered (e ∷ es) = e.0 ∷ answered es

answered-append : (xs ys : List Entry) → answered (xs ++ ys) ≡ answered xs ++ answered ys
answered-append [] ys = refl
answered-append (e ∷ xs) ys = ap (e.0 ∷◌) (answered-append xs ys)

answered-map :
    (f : RegisterAddress → ReadResult) (as' : List RegisterAddress)
    → answered (map (λ a. (a, f a)) as') ≡ as'
answered-map f [] = refl
answered-map f (a ∷ as') = ap (a ∷◌) (answered-map f as')

answered-read_groups :
    (line : Line) (gs : List RegisterGroup) → answered (read_groups line gs) ≡ addresses_of gs
unfolding read_groups read_group
answered-read_groups line [] = refl
answered-read_groups line (g ∷ gs) =
    answered-append (read_group line g) (read_groups line gs)
    ∙ ap (λ x. x ++ answered (read_groups line gs))
        (answered-map (group_result g.type line g (line.read g.type g.start_address g.count))
          g.addresses)
    ∙ ap (g.addresses ++◌) (answered-read_groups line gs)

partition-Perm :
    (as' : List RegisterAddress) → Perm (answered (invalid_entries as') ++ valid_addresses as') as'
unfolding invalid_entries valid_addresses
partition-Perm [] = Perm.refl []
partition-Perm (a ∷ as') = elim (Bool-cases (validate_register_address a)) [
  | inl h ↦ rw h (
      Perm.trans (perm_middle (answered (invalid_entries as')) (valid_addresses as'))
        (Perm.cons a (partition-Perm as')))
  | inr h ↦ rw h (Perm.cons a (partition-Perm as'))
]

-- The addresses of the entries that `readMultipleRegisters` makes are those asked for, in some order: none is
-- left without an answer, whatever fails.
pub read_multiple_registers-Perm :
    (s : Sorter) (blocked : Option String) (line : Line) (as' : List RegisterAddress)
    → Perm (answered (read_multiple_registers s blocked line as')) as'
unfolding read_multiple_registers
read_multiple_registers-Perm s (some message) line as' =
    subst (λ x. Perm x as') (sym (answered-map (λ a. refused message) as')) (Perm.refl as')
read_multiple_registers-Perm s none line as' =
    let valid = valid_addresses as' in
    let gs = group_registers s valid in
    subst (λ x. Perm x as')
      (sym (
        answered-append (invalid_entries as') (read_groups line gs)
        ∙ ap (answered (invalid_entries as') ++◌) (answered-read_groups line gs)))
      (Perm.trans
        (Perm.append (Perm.refl (answered (invalid_entries as'))) (group_registers-Perm s valid))
        (partition-Perm as'))
