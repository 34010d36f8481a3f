-- ===== src/Mapping/Translator/Scenarios.antt =====
-- The translator at concrete inputs, with natural numbers in place of doubles.
use ocpp_gw.Base.{ℕ, ◌*◌, ◌/◌, ℤ, pos, negsuc, ◌≡◌, refl, false, none, some, [], ◌∷◌, ltb, arith}
use ocpp_gw.Mapping.Template.{
  Numbers, VariableFields, modbus, OcppVariable, MappingTemplate, find_variable, get_variable,
}
use ocpp_gw.Mapping.Validate.{validate_modbus, validate_variable}
use ocpp_gw.Mapping.Translator.{Arithmetic, int, ok, DeviceData, modbus_data}
use ocpp_gw.Mapping.Translator.Convert.{convert_ocpp_to_modbus_data, write_common}
use ocpp_gw.Mapping.Translator.Translate.{
  variable_to_device, translate_to_device, translate_to_ocpp,
}
use ocpp_gw.Mapping.Translator.Common.{uint16}
use ocpp_gw.Mapping.Translator.RoundTrip.{common, by_modbus, translate_to_ocpp-translate_to_device}
use ocpp_gw.Mapping.Translator.Refusals.{is_ok, IsFor, translate_to_device-IsFor}
use ocpp_gw.Mapping.Translator.Readable.{readable, translate_to_ocpp-readable}

abbrev whole : Numbers
whole = record { Double = ℕ; at_most_zero = λ x. ltb x 1 }

abbrev positive : ℤ → ℕ
positive (pos k) = k
positive (negsuc k) = 0

abbrev whole_numbers : Arithmetic whole
whole_numbers = record {
  of_int = positive;
  to_int = pos;
  round = pos;
  times = λ x y. x * y;
  divide = λ x y. x / y;
  float_bits = λ x. x;
  of_float_bits = λ x. x;
  string_bytes = λ s. [];
  string_of = λ bytes. "";
}

-- A power in steps of ten watts.
abbrev fields : VariableFields whole
fields = record { address = pos 40001; data_type = "uint16"; scale = 10; unit = "W"; enum_map = [] }

abbrev power : OcppVariable whole
power = record { ocpp_name = "Power"; type = "modbus"; mapping = modbus fields; read_only = false }

abbrev charger : MappingTemplate whole
charger = record { id = "charger"; description = ""; parent_id = none; variables = power ∷ [] }

found : get_variable "Power" charger ≡ some power
unfolding get_variable find_variable
found = refl

written :
    translate_to_device whole_numbers charger "Power" (int (pos 7400))
    ≡ ok (modbus_data (2 ∷ 228 ∷ []))
unfolding translate_to_device get_variable find_variable variable_to_device
    convert_ocpp_to_modbus_data write_common
written = refl

-- 7405 W is written as 7400 W.
truncated :
    translate_to_device whole_numbers charger "Power" (int (pos 7405))
    ≡ ok (modbus_data (2 ∷ 228 ∷ []))
unfolding translate_to_device get_variable find_variable variable_to_device
    convert_ocpp_to_modbus_data write_common
truncated = refl

translate_to_ocpp-translate_to_device_example :
    (device : DeviceData) × ((translate_to_device whole_numbers charger "Power" (int (pos 7400))
        ≡ ok device)
      × (translate_to_ocpp whole_numbers charger "Power" device ≡ ok (int (pos 7400))))
translate_to_ocpp-translate_to_device_example =
    translate_to_ocpp-translate_to_device whole_numbers charger "Power" power (int (pos 7400)) found
      refl (by_modbus fields refl refl (common (uint16 (pos 7400) refl (omega arith) refl)))

translate_to_device-IsFor_example :
    (var : OcppVariable whole) × ((get_variable "Power" charger ≡ some var)
      × ((var.read_only ≡ false) × IsFor whole_numbers var (modbus_data (2 ∷ 228 ∷ []))))
translate_to_device-IsFor_example =
    translate_to_device-IsFor whole_numbers charger "Power" (int (pos 7400))
      (modbus_data (2 ∷ 228 ∷ [])) written

power_valid : validate_variable power ≡ none
unfolding validate_variable validate_modbus
power_valid = refl

-- One byte is too few.
translate_to_ocpp-readable_example :
    is_ok (translate_to_ocpp whole_numbers charger "Power" (modbus_data (2 ∷ [])))
    ≡ readable power.mapping (2 ∷ [])
translate_to_ocpp-readable_example =
    translate_to_ocpp-readable whole_numbers charger "Power" power (2 ∷ []) found power_valid
