-- ===== src/Mapping/Validate.antt =====
-- The `validate` members of mapping_config.cpp. `none` is the return of `true`, and an error stands for
-- the message of the `ConfigValidationError` thrown.
use ocpp_gw.Base.{
  ℤ, pos, negsuc, is_negative, String, ◌≡◌, ◌≢◌, ◌↔◌, refl, Bool, true, not, ◌&&◌, Option, none,
  some, List, [], ◌∷◌, is_some, is_empty, ltb, str_eq, eq_iff, if◌then◌else◌, any, All, arith,
}
use ocpp_gw.Base.Dict.{Dict, lookup, insert, lookup-insert}
use ocpp_gw.Mapping.Template.{
  Numbers, VariableFields, VariableMapping, modbus, echonet_lite, OcppVariable, MappingTemplate,
  find_variable,
}
use ocpp_gw.Mapping.Inherit.{IsDistinct}

pub data ValidationError : Type 0 where
  register_address_negative epc_out_of_range scale_not_positive enum_map_empty : ValidationError
  invalid_data_type : String → ValidationError
  name_empty invalid_variable_type wrong_mapping template_id_empty : ValidationError
  duplicate_variable : String → ValidationError

abbrev numeric : List String
numeric = "uint16" ∷ "int16" ∷ "uint32" ∷ "int32" ∷ "float32" ∷ []

abbrev other_types : List String
other_types = "boolean" ∷ "string" ∷ "enum" ∷ []

-- A chain of `==` on the name of a data type.
abbrev is_one_of : String → List String → Bool
is_one_of s names = any (λ k. str_eq s k) names

abbrev beyond_byte : ℤ → Bool
beyond_byte (pos a) = ltb 255 a
beyond_byte (negsuc a) = true

module _ {n : Numbers} where
  unfoldable pub validate_modbus : VariableFields n → Option ValidationError
  validate_modbus v =
      if is_negative v.address
      then some register_address_negative
      else if not (is_one_of v.data_type numeric) && not (is_one_of v.data_type other_types)
      then some (invalid_data_type v.data_type)
      else if is_one_of v.data_type numeric && n.at_most_zero v.scale
      then some scale_not_positive
      else if str_eq v.data_type "enum" && is_empty v.enum_map
      then some enum_map_empty
      else none

  unfoldable pub validate_echonet_lite : VariableFields n → Option ValidationError
  validate_echonet_lite v =
      if beyond_byte v.address
      then some epc_out_of_range
      else if not (is_one_of v.data_type ("uint8" ∷ "int8" ∷ numeric))
          && not (is_one_of v.data_type other_types)
      then some (invalid_data_type v.data_type)
      else if is_one_of v.data_type ("uint8" ∷ "int8" ∷ numeric) && n.at_most_zero v.scale
      then some scale_not_positive
      else if str_eq v.data_type "enum" && is_empty v.enum_map
      then some enum_map_empty
      else none

  abbrev modbus_part : VariableMapping n → Option ValidationError
  modbus_part (modbus v) = validate_modbus v
  modbus_part (echonet_lite v) = some wrong_mapping

  abbrev echonet_lite_part : VariableMapping n → Option ValidationError
  echonet_lite_part (modbus v) = some wrong_mapping
  echonet_lite_part (echonet_lite v) = validate_echonet_lite v

  unfoldable pub validate_variable : OcppVariable n → Option ValidationError
  validate_variable v =
      if str_eq v.ocpp_name ""
      then some name_empty
      else if not (str_eq v.type "modbus") && not (str_eq v.type "echonet_lite")
      then some invalid_variable_type
      else if str_eq v.type "modbus"
      then modbus_part v.mapping
      else if str_eq v.type "echonet_lite"
      then echonet_lite_part v.mapping
      else none

  -- The loop that validates each variable.
  unfoldable pub validate_variables : List (OcppVariable n) → Option ValidationError
  validate_variables [] = none
  validate_variables (v ∷ vs) =
      let rest = validate_variables vs in
      elim (validate_variable v) [ some e ↦ some e | none ↦ rest ]

  -- The loop that looks for a second variable of one name; a set is a map to nothing.
  unfoldable pub check_names : Dict (Unit {0}) → List (OcppVariable n) → Option ValidationError
  check_names seen [] = none
  check_names seen (v ∷ vs) =
      let rest = check_names (insert v.ocpp_name tt seen) vs in
      if is_some (lookup v.ocpp_name seen) then some (duplicate_variable v.ocpp_name) else rest

  unfoldable pub validate : MappingTemplate n → Option ValidationError
  validate t =
      if str_eq t.id "" then some template_id_empty else elim (validate_variables t.variables) [
        | some e ↦ some e
        | none ↦ check_names [] t.variables
      ]

  -- None of the names has been seen.
  abbrev IsUnseen : Dict (Unit {0}) → List (OcppVariable n) → Type 0
  IsUnseen seen vs = All (λ v. lookup v.ocpp_name seen ≡ none) vs

  insert-IsUnseen :
      (name : String) (seen : Dict (Unit {0})) (vs : List (OcppVariable n))
      → IsUnseen (insert name tt seen) vs ↔ ((find_variable name vs ≡ none) × IsUnseen seen vs)
  unfolding find_variable
  insert-IsUnseen name seen [] = (λ h. (refl, tt), λ h. tt)
  insert-IsUnseen name seen (v ∷ vs) = ground (
    arith,
    insert-IsUnseen name seen vs,
    lookup-insert name v.ocpp_name tt seen,
    eq_iff name v.ocpp_name,
    eq_iff v.ocpp_name name,
  )

  check_names_iff :
      (seen : Dict (Unit {0})) (vs : List (OcppVariable n))
      → (check_names seen vs ≡ none) ↔ (IsUnseen seen vs × IsDistinct vs)
  unfolding check_names
  check_names_iff seen [] = (λ h. (tt, tt), λ h. refl)
  check_names_iff seen (v ∷ vs) =
      ground (
        arith,
        check_names_iff (insert v.ocpp_name tt seen) vs,
        insert-IsUnseen v.ocpp_name seen vs,
      )

  validate_variables_iff :
      (vs : List (OcppVariable n))
      → (validate_variables vs ≡ none) ↔ All (λ v. validate_variable v ≡ none) vs
  unfolding validate_variables
  validate_variables_iff [] = (λ h. tt, λ h. refl)
  validate_variables_iff (v ∷ vs) = ground (arith, validate_variables_iff vs)

  all-IsUnseen : (vs : List (OcppVariable n)) → IsUnseen [] vs
  unfolding lookup
  all-IsUnseen [] = tt
  all-IsUnseen (v ∷ vs) = (refl, all-IsUnseen vs)

  -- A template passes exactly if it has an identifier, each of its variables passes, and no two of them have
  -- one name.
  pub validate_iff :
      (t : MappingTemplate n)
      → (validate t ≡ none) ↔ (
          (t.id ≢ "")
          × (All (λ v. validate_variable v ≡ none) t.variables × IsDistinct t.variables))
  unfolding validate
  validate_iff t = ground (
    arith,
    eq_iff t.id "",
    validate_variables_iff t.variables,
    check_names_iff [] t.variables,
    all-IsUnseen t.variables,
  )
