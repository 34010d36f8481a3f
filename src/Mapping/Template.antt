-- ===== src/Mapping/Template.antt =====
-- `OcppVariable`, its two kinds of mapping, and `MappingTemplate` with its operations.
use ocpp_gw.Base.{ℤ, String, Bool, Option, none, some, List, [], ◌∷◌, str_eq, if◌then◌else◌}
use ocpp_gw.Base.Dict.{Dict, insert, values}

-- A `double` and the test `scale <= 0` on it.
pub record Numbers : Type 1 where
  pub Double : Type 0
  pub at_most_zero : Double → Bool

-- `address` is `register_address` of the one and `epc` of the other.
pub record VariableFields (n : Numbers) : Type 0 where
  pub address : ℤ
  pub data_type : String
  pub scale : n.Double
  pub unit : String
  pub enum_map : List (ℤ × String)

pub data VariableMapping (n : Numbers) : Type 0 where
  modbus : VariableFields n → VariableMapping n
  echonet_lite : VariableFields n → VariableMapping n

pub record OcppVariable (n : Numbers) : Type 0 where
  pub ocpp_name : String
  pub type : String
  pub mapping : VariableMapping n
  pub read_only : Bool

pub record MappingTemplate (n : Numbers) : Type 0 where
  pub id : String
  pub description : String
  pub parent_id : Option String
  pub variables : List (OcppVariable n)

module _ {n : Numbers} where
  -- The first variable of that name.
  unfoldable pub find_variable : String → List (OcppVariable n) → Option (OcppVariable n)
  find_variable name [] = none
  find_variable name (v ∷ vs) =
      let later = find_variable name vs in if str_eq v.ocpp_name name then some v else later

  unfoldable pub get_variable : String → MappingTemplate n → Option (OcppVariable n)
  get_variable name t = find_variable name t.variables

  -- The loop of `addVariable`, with the `push_back` at the end of the list.
  unfoldable pub put_variable : OcppVariable n → List (OcppVariable n) → List (OcppVariable n)
  put_variable v [] = v ∷ []
  put_variable v (w ∷ ws) =
      let later = put_variable v ws in if str_eq w.ocpp_name v.ocpp_name then v ∷ ws else w ∷ later

  unfoldable pub add_variable : OcppVariable n → MappingTemplate n → MappingTemplate n
  add_variable v t = record t { variables = put_variable v t.variables }

  -- `var_map[var.ocpp_name] = var` for each of the variables.
  unfoldable pub add_all : List (OcppVariable n) → Dict (OcppVariable n) → Dict (OcppVariable n)
  add_all [] m = m
  add_all (v ∷ vs) m = add_all vs (insert v.ocpp_name v m)

  unfoldable pub apply_parent : MappingTemplate n → MappingTemplate n → MappingTemplate n
  apply_parent parent t = record t {
    description = if str_eq t.description "" then parent.description else t.description;
    variables = values (add_all t.variables (add_all parent.variables []));
  }
