-- ===== src/Mapping/Translator/Convert.antt =====
-- The conversions of a value to and from the bytes of a Modbus or ECHONET Lite device.
use ocpp_gw.Base.{
  ℕ, ℤ, pos, String, Bool, true, false, not, ◌||◌, Option, none, some, List, [], ◌∷◌, length,
  get_or, ltb, ◌==◌, str_eq, if◌then◌else◌,
}
use ocpp_gw.Mapping.Template.{Numbers, VariableFields}
use ocpp_gw.Mapping.Translator.{
  Arithmetic, OcppValue, Translated, bool, int, double, string, unsupported_data_type,
  data_too_small, numeric_expected, boolean_expected, string_expected, ok, throws,
}
use ocpp_gw.Mapping.Translator.Values.{
  signed, word_of, double_word_of, four_bytes, narrow, half, wide, map_enum_to_string,
  map_enum_to_int, is_two, modbus_size, echonet_lite_size,
}

module _ {n : Numbers} (a : Arithmetic n) where
  open a use {
    of_int, to_int, round, times, divide, float_bits, of_float_bits, string_bytes, string_of,
  }

  -- `applyScaling` in the two directions.
  abbrev pub apply_scaling : n.Double → n.Double → Bool → n.Double
  apply_scaling x scale true = divide x scale
  apply_scaling x scale false = times x scale

  abbrev pub scaled : VariableFields n → ℤ → Translated (OcppValue n)
  scaled f k = ok (int (to_int (apply_scaling (of_int k) f.scale false)))

  abbrev pub text_of : Translated String → Translated (OcppValue n)
  text_of (ok s) = ok (string s)
  text_of (throws e) = throws e

  -- The branches that the two conversions to OCPP share.
  unfoldable pub read_common : VariableFields n → List ℕ → Translated (OcppValue n)
  read_common f bytes =
      if str_eq f.data_type "uint16"
      then scaled f (pos (word_of bytes))
      else if str_eq f.data_type "int16"
      then scaled f (signed 16 (word_of bytes))
      else if str_eq f.data_type "uint32"
      then scaled f (pos (double_word_of bytes))
      else if str_eq f.data_type "int32"
      then scaled f (signed 32 (double_word_of bytes))
      else if str_eq f.data_type "float32"
      then ok (double (apply_scaling (of_float_bits (double_word_of bytes)) f.scale false))
      else if str_eq f.data_type "boolean"
      then ok (bool (not (get_or bytes 0 0 == 0)))
      else if str_eq f.data_type "string"
      then ok (string (string_of bytes))
      else throws (unsupported_data_type f.data_type)

  abbrev pub sized :
      VariableFields n → Option ℕ → List ℕ → Translated (OcppValue n) → Translated (OcppValue n)
  sized f none bytes result = throws (unsupported_data_type f.data_type)
  sized f (some k) bytes result =
      if ltb (length bytes) k then throws (data_too_small f.data_type) else result

  unfoldable pub convert_modbus_data_to_ocpp : VariableFields n → List ℕ → Translated (OcppValue n)
  convert_modbus_data_to_ocpp f bytes = sized f (modbus_size f.data_type) bytes (
      if str_eq f.data_type "enum"
      then text_of (map_enum_to_string f.enum_map (pos (word_of bytes)))
      else read_common f bytes)

  unfoldable pub convert_echonet_lite_data_to_ocpp :
      VariableFields n → List ℕ → Translated (OcppValue n)
  convert_echonet_lite_data_to_ocpp f bytes = sized f (echonet_lite_size f.data_type) bytes (
      if str_eq f.data_type "uint8"
      then scaled f (pos (get_or bytes 0 0))
      else if str_eq f.data_type "int8"
      then scaled f (signed 8 (get_or bytes 0 0))
      else if str_eq f.data_type "enum"
      then text_of (map_enum_to_string f.enum_map (pos (get_or bytes 0 0)))
      else read_common f bytes)

  abbrev numeric_value : OcppValue n → Option n.Double
  numeric_value (int k) = some (of_int k)
  numeric_value (double x) = some x
  numeric_value _ = none

  -- A number divided by the scale and written by `put`.
  abbrev number_to : VariableFields n → OcppValue n → (n.Double → List ℕ) → Translated (List ℕ)
  number_to f v put = elim (numeric_value v) [
    | none ↦ throws (numeric_expected f.data_type)
    | some x ↦ ok (put (apply_scaling x f.scale true))
  ]

  abbrev boolean_to : VariableFields n → OcppValue n → Translated (List ℕ)
  boolean_to f (bool b) = ok ((if b then 1 else 0) ∷ [])
  boolean_to f _ = throws (boolean_expected f.data_type)

  abbrev string_to : VariableFields n → OcppValue n → Translated (List ℕ)
  string_to f (string s) = ok (string_bytes s)
  string_to f _ = throws (string_expected f.data_type)

  abbrev key_to : Translated ℤ → (ℤ → List ℕ) → Translated (List ℕ)
  key_to (ok k) put = ok (put k)
  key_to (throws e) put = throws e

  abbrev enum_to : VariableFields n → OcppValue n → (ℤ → List ℕ) → Translated (List ℕ)
  enum_to f (string s) put = key_to (map_enum_to_int f.enum_map s) put
  enum_to f _ put = throws (string_expected f.data_type)

  -- The branches that the two conversions to a device share.
  unfoldable pub write_common : VariableFields n → OcppValue n → Translated (List ℕ)
  write_common f v =
      if is_two f.data_type
      then number_to f v (λ x. half (round x))
      else if str_eq f.data_type "uint32" || str_eq f.data_type "int32"
      then number_to f v (λ x. wide (round x))
      else if str_eq f.data_type "float32"
      then number_to f v (λ x. four_bytes (float_bits x))
      else if str_eq f.data_type "boolean"
      then boolean_to f v
      else if str_eq f.data_type "string"
      then string_to f v
      else throws (unsupported_data_type f.data_type)

  unfoldable pub convert_ocpp_to_modbus_data : VariableFields n → OcppValue n → Translated (List ℕ)
  convert_ocpp_to_modbus_data f v =
      if str_eq f.data_type "enum" then enum_to f v half else write_common f v

  unfoldable pub convert_ocpp_to_echonet_lite_data :
      VariableFields n → OcppValue n → Translated (List ℕ)
  convert_ocpp_to_echonet_lite_data f v =
      if str_eq f.data_type "uint8" || str_eq f.data_type "int8"
      then number_to f v (λ x. narrow (round x))
      else if str_eq f.data_type "enum"
      then enum_to f v narrow
      else write_common f v
