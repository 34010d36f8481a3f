-- ===== src/Mapping/Translator.antt =====
-- `VariableTranslator` (src/ocpp/variable_translator.cpp): OCPP values to the bytes of a device and back,
-- as a mapping template tells.
use ocpp_gw.Base.{
  ℕ, zero, suc, ◌+◌, ◌-◌, ◌*◌, ◌/◌, ◌%◌, ◌^◌, ℤ, pos, negsuc, int_eq, String, Bool, true, false,
  not, ◌||◌, Option, none, some, List, [], ◌∷◌, length, get_or, ltb, ◌==◌, str_eq, if◌then◌else◌,
}
use ocpp_gw.Mapping.Template.{
  Numbers, VariableFields, VariableMapping, modbus, echonet_lite, OcppVariable, MappingTemplate,
  get_variable,
}
pub mod Values
pub mod Convert
pub mod Translate
pub mod Words
pub mod Common
pub mod RoundTrip
pub mod Refusals
pub mod Readable
mod Scenarios

-- What the code does with a `double`, and the bytes of a `std::string`. `round` is `std::round`, whose
-- conversion to an integer type wraps around here; where it leaves the type, C++ does not define it.
pub record Arithmetic (n : Numbers) : Type 0 where
  pub of_int : ℤ → n.Double
  -- `static_cast<int>`
  pub to_int : n.Double → ℤ
  pub round : n.Double → ℤ
  pub times : n.Double → n.Double → n.Double
  pub divide : n.Double → n.Double → n.Double
  -- `static_cast<float>` with the bits of the float, and back
  pub float_bits : n.Double → ℕ
  pub of_float_bits : ℕ → n.Double
  pub string_bytes : String → List ℕ
  pub string_of : List ℕ → String

pub data OcppValue (n : Numbers) : Type 0 where
  bool : Bool → OcppValue n
  int : ℤ → OcppValue n
  double : n.Double → OcppValue n
  string : String → OcppValue n

pub data DeviceData : Type 0 where
  modbus_data : List ℕ → DeviceData
  echonet_lite_data : List ℕ → DeviceData

pub data TranslationError : Type 0 where
  variable_not_found read_only_variable wrong_mapping unsupported_type : String → TranslationError
  modbus_data_expected echonet_lite_data_expected : String → TranslationError
  unsupported_data_type data_too_small : String → TranslationError
  numeric_expected boolean_expected string_expected : String → TranslationError
  enum_value_not_found : ℤ → TranslationError
  enum_string_not_found : String → TranslationError

pub data Translated {ℓ} (A : Type ℓ) : Type ℓ where
  ok : A → Translated A
  throws : TranslationError → Translated A
