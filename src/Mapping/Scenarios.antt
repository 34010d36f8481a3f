-- ===== src/Mapping/Scenarios.antt =====
-- The theorems on templates at concrete inputs, and a chain of three templates in two orders.
use ocpp_gw.Base.{ℕ, pos, ◌≡◌, refl, String, false, some, none, List, [], ◌∷◌, All, ltb, Option}
use ocpp_gw.Base.Dict.{insert, values}
use ocpp_gw.Mapping.Template.{
  Numbers, modbus, OcppVariable, MappingTemplate, find_variable, get_variable, add_all,
  apply_parent,
}
use ocpp_gw.Mapping.Collection.{
  Outcome, ok, throws, InheritanceError, find_template, apply_round, apply_parents,
}
use ocpp_gw.Mapping.Resolve.{ids, HasKnown, apply_parents_lem}
use ocpp_gw.Mapping.Order.{AllInherit, apply_parents-AllInherit}

-- Scales as hundredths.
abbrev toy : Numbers
toy = record { Double = ℕ; at_most_zero = λ x. ltb x 1 }

abbrev variable : String → OcppVariable toy
variable name = record {
  ocpp_name = name;
  type = "modbus";
  mapping = modbus (record {
    address = pos 40001;
    data_type = "uint16";
    scale = 100;
    unit = "V";
    enum_map = [];
  });
  read_only = false;
}

abbrev base : MappingTemplate toy
base = record {
  id = "base";
  description = "all chargers";
  parent_id = none;
  variables = variable "Voltage" ∷ [];
}

abbrev vendor : MappingTemplate toy
vendor = record {
  id = "vendor";
  description = "";
  parent_id = some "base";
  variables = variable "Current" ∷ [];
}

abbrev model : MappingTemplate toy
model = record {
  id = "model";
  description = "";
  parent_id = some "vendor";
  variables = variable "Power" ∷ [];
}

abbrev parents_first : List (MappingTemplate toy)
parents_first = base ∷ vendor ∷ model ∷ []

abbrev children_first : List (MappingTemplate toy)
children_first = model ∷ vendor ∷ base ∷ []

apply_parents_lem_example :
    (All (HasKnown (ids children_first)) children_first
      → (out : List (MappingTemplate toy)) × ((apply_parents 2 children_first ≡ some (ok out))
          × ((ids out ≡ ids children_first) × All (λ t. t.parent_id ≡ none) out)))
    × ((All (HasKnown (ids children_first)) children_first → ⊥)
        → (e : InheritanceError) × (apply_parents 2 children_first ≡ some (throws e)))
apply_parents_lem_example = apply_parents_lem 0 children_first

apply_parents-AllInherit_example :
    (out : List (MappingTemplate toy)) × ((apply_parents 2 parents_first ≡ some (ok out))
      × AllInherit out parents_first out)
unfolding find_variable
apply_parents-AllInherit_example =
    apply_parents-AllInherit 0 parents_first (tt, (refl, (refl, tt)))
      ((refl, tt), ((refl, tt), ((refl, tt), tt)))

abbrev resolved : Option (Outcome (List (MappingTemplate toy))) → List (MappingTemplate toy)
resolved (some (ok ts)) = ts
resolved _ = []

abbrev voltage_of_model : List (MappingTemplate toy) → Option (OcppVariable toy)
voltage_of_model ts = elim (find_template "model" (resolved (apply_parents 2 ts))) [
  | none ↦ none
  | some t ↦ get_variable "Voltage" t
]

-- With the parents first the model has the voltage of its grandparent.
parents_first_voltage : voltage_of_model parents_first ≡ some (variable "Voltage")
unfolding apply_parents apply_round find_template get_variable find_variable apply_parent add_all
    insert values
parents_first_voltage = refl

-- With the children first it has not.
children_first_voltage : voltage_of_model children_first ≡ none
unfolding apply_parents apply_round find_template get_variable find_variable apply_parent add_all
    insert values
children_first_voltage = refl
