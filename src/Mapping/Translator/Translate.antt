-- ===== src/Mapping/Translator/Translate.antt =====
-- `translateToDevice` and `translateToOcpp`: find the variable, check it, and convert by its mapping.
use ocpp_gw.Base.{ℕ, String, none, some, List, str_eq, if◌then◌else◌}
use ocpp_gw.Mapping.Template.{
  Numbers, VariableMapping, modbus, echonet_lite, OcppVariable, MappingTemplate, get_variable,
}
use ocpp_gw.Mapping.Translator.{
  Arithmetic, OcppValue, DeviceData, Translated, modbus_data, echonet_lite_data, variable_not_found,
  read_only_variable, wrong_mapping, unsupported_type, modbus_data_expected,
  echonet_lite_data_expected, ok, throws,
}
use ocpp_gw.Mapping.Translator.Convert.{
  convert_modbus_data_to_ocpp, convert_echonet_lite_data_to_ocpp, convert_ocpp_to_modbus_data,
  convert_ocpp_to_echonet_lite_data,
}

module _ {n : Numbers} (a : Arithmetic n) where
  abbrev as_modbus : Translated (List ℕ) → Translated DeviceData
  as_modbus (ok bytes) = ok (modbus_data bytes)
  as_modbus (throws e) = throws e

  abbrev as_echonet_lite : Translated (List ℕ) → Translated DeviceData
  as_echonet_lite (ok bytes) = ok (echonet_lite_data bytes)
  as_echonet_lite (throws e) = throws e

  abbrev modbus_to_device : String → OcppValue n → VariableMapping n → Translated DeviceData
  modbus_to_device name v (modbus f) = as_modbus (convert_ocpp_to_modbus_data a f v)
  modbus_to_device name v (echonet_lite f) = throws (wrong_mapping name)

  abbrev echonet_lite_to_device : String → OcppValue n → VariableMapping n → Translated DeviceData
  echonet_lite_to_device name v (modbus f) = throws (wrong_mapping name)
  echonet_lite_to_device name v (echonet_lite f) =
      as_echonet_lite (convert_ocpp_to_echonet_lite_data a f v)

  -- `translateToDevice` and `translateToOcpp` once the variable is found.
  unfoldable pub variable_to_device : String → OcppVariable n → OcppValue n → Translated DeviceData
  variable_to_device name var v =
      if var.read_only
      then throws (read_only_variable name)
      else if str_eq var.type "modbus"
      then modbus_to_device name v var.mapping
      else if str_eq var.type "echonet_lite"
      then echonet_lite_to_device name v var.mapping
      else throws (unsupported_type var.type)

  unfoldable pub translate_to_device :
      MappingTemplate n → String → OcppValue n → Translated DeviceData
  translate_to_device t name v = elim (get_variable name t) [
    | none ↦ throws (variable_not_found name)
    | some var ↦ variable_to_device name var v
  ]

  abbrev modbus_to_ocpp : String → DeviceData → VariableMapping n → Translated (OcppValue n)
  modbus_to_ocpp name data_ (echonet_lite f) = throws (wrong_mapping name)
  modbus_to_ocpp name (modbus_data bytes) (modbus f) = convert_modbus_data_to_ocpp a f bytes
  modbus_to_ocpp name (echonet_lite_data bytes) (modbus f) = throws (modbus_data_expected name)

  abbrev echonet_lite_to_ocpp : String → DeviceData → VariableMapping n → Translated (OcppValue n)
  echonet_lite_to_ocpp name data_ (modbus f) = throws (wrong_mapping name)
  echonet_lite_to_ocpp name (echonet_lite_data bytes) (echonet_lite f) =
      convert_echonet_lite_data_to_ocpp a f bytes
  echonet_lite_to_ocpp name (modbus_data bytes) (echonet_lite f) =
      throws (echonet_lite_data_expected name)

  unfoldable pub variable_to_ocpp : String → OcppVariable n → DeviceData → Translated (OcppValue n)
  variable_to_ocpp name var data_ =
      if str_eq var.type "modbus"
      then modbus_to_ocpp name data_ var.mapping
      else if str_eq var.type "echonet_lite"
      then echonet_lite_to_ocpp name data_ var.mapping
      else throws (unsupported_type var.type)

  unfoldable pub translate_to_ocpp :
      MappingTemplate n → String → DeviceData → Translated (OcppValue n)
  translate_to_ocpp t name data_ = elim (get_variable name t) [
    | none ↦ throws (variable_not_found name)
    | some var ↦ variable_to_ocpp name var data_
  ]
