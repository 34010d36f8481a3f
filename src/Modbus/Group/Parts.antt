-- ===== src/Modbus/Group/Parts.antt =====
-- The addresses of the six types together are the addresses given, in some order.
use mathlib.Core.List.{Perm, perm_middle}
use mathlib.Core.List.Perm
use ocpp_gw.Base.{Bool, List, [], ◌∷◌, ◌++◌, if◌then◌else◌}
use ocpp_gw.Device.Types.{
  RegisterType, coil, discrete_input, input_register, holding_register, epc, RegisterAddress,
}
use ocpp_gw.Modbus.Group.{of_type, same_type}

-- A fresh element passes over a list in front.
over :
    (a : RegisterAddress) (front : List RegisterAddress) {xs ys : List RegisterAddress}
    → Perm xs (a ∷ ys)
    → Perm (front ++ xs) (a ∷ (front ++ ys))
over a front h = Perm.trans (Perm.append_left front h) (perm_middle front _)

abbrev parts : List RegisterAddress → List RegisterAddress
parts as' =
    of_type coil as'
    ++ (of_type discrete_input as'
        ++ (of_type input_register as'
            ++ (of_type holding_register as'
                ++ (of_type epc as' ++ of_type RegisterType.unknown as'))))

abbrev put : Bool → RegisterAddress → List RegisterAddress → List RegisterAddress
put b a xs = if b then a ∷ xs else xs

put-Perm :
    (t : RegisterType) (a : RegisterAddress) (c d i h e u : List RegisterAddress)
    → Perm
        (put (same_type t coil) a c
          ++ (put (same_type t discrete_input) a d
              ++ (put (same_type t input_register) a i
                  ++ (put (same_type t holding_register) a h
                      ++ (put (same_type t epc) a e
                          ++ put (same_type t RegisterType.unknown) a u)))))
        (a ∷ (c ++ (d ++ (i ++ (h ++ (e ++ u))))))
put-Perm coil a c d i h e u = Perm.refl _
put-Perm discrete_input a c d i h e u = over a c (Perm.refl _)
put-Perm input_register a c d i h e u = over a c (over a d (Perm.refl _))
put-Perm holding_register a c d i h e u = over a c (over a d (over a i (Perm.refl _)))
put-Perm epc a c d i h e u = over a c (over a d (over a i (over a h (Perm.refl _))))
put-Perm RegisterType.unknown a c d i h e u =
    over a c (over a d (over a i (over a h (over a e (Perm.refl _)))))

parts-cons :
    (a : RegisterAddress) (as' : List RegisterAddress) → Perm (parts (a ∷ as')) (a ∷ parts as')
unfolding of_type
parts-cons a as' = put-Perm a.type a _ _ _ _ _ _

pub parts-Perm : (as' : List RegisterAddress) → Perm (parts as') as'
unfolding of_type
parts-Perm [] = Perm.refl []
parts-Perm (a ∷ as') = Perm.trans (parts-cons a as') (Perm.cons a (parts-Perm as'))
