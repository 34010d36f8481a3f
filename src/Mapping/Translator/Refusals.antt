-- ===== src/Mapping/Translator/Refusals.antt =====
-- When a translation succeeds.
use ocpp_gw.Base.{
  ℕ, ℤ, pos, String, ◌≡◌, Bool, Bool-cases, true, false, not, ◌&&◌, ◌||◌, inl, inr, Option,
  Option-cases, none, some, is_some, List, length, leb, if◌then◌else◌, get_or, str_eq, eq_iff,
  arith,
}
use ocpp_gw.Mapping.Template.{
  Numbers, VariableFields, VariableMapping, modbus, echonet_lite, OcppVariable, MappingTemplate,
  get_variable,
}
use ocpp_gw.Mapping.Validate.{validate_modbus, validate_echonet_lite, validate_variable}
use ocpp_gw.Mapping.Translator.{
  Arithmetic, OcppValue, Translated, ok, throws, DeviceData, modbus_data, echonet_lite_data,
}
use ocpp_gw.Mapping.Translator.Values.{
  word_of, find_enum, modbus_size, echonet_lite_size, map_enum_to_string, signed,
}
use ocpp_gw.Mapping.Translator.Convert.{
  text_of, sized, scaled, read_common, convert_modbus_data_to_ocpp,
  convert_echonet_lite_data_to_ocpp,
}
use ocpp_gw.Mapping.Translator.Translate.{variable_to_device, translate_to_device, variable_to_ocpp}

abbrev pub is_ok {ℓ} : {A : Type ℓ} → Translated A → Bool
is_ok (ok x) = true
is_ok (throws e) = false

-- What the code tests.
abbrev pub known : {n : Numbers} → VariableFields n → ℕ → Bool
known f k = not (str_eq f.data_type "enum") || is_some (find_enum (pos k) f.enum_map)

abbrev pub enough : Option ℕ → List ℕ → Bool
enough none bytes = false
enough (some k) bytes = leb k (length bytes)

abbrev pub readable_by : {n : Numbers} → VariableMapping n → List ℕ → Bool
readable_by (modbus f) bytes = enough (modbus_size f.data_type) bytes && known f (word_of bytes)
readable_by (echonet_lite f) bytes =
    enough (echonet_lite_size f.data_type) bytes && known f (get_or bytes 0 0)

abbrev pub data_for : {n : Numbers} → VariableMapping n → List ℕ → DeviceData
data_for (modbus f) bytes = modbus_data bytes
data_for (echonet_lite f) bytes = echonet_lite_data bytes

module _ {n : Numbers} (a : Arithmetic n) where
  read_common_ok :
      (f : VariableFields n) (bytes : List ℕ) (k : ℕ)
      → modbus_size f.data_type ≡ some k
      → str_eq f.data_type "enum" ≡ false
      → is_ok (read_common a f bytes) ≡ true
  unfolding modbus_size read_common
  read_common_ok f bytes k h e = ground arith

  read_common_ok_lite :
      (f : VariableFields n) (bytes : List ℕ) (k : ℕ)
      → echonet_lite_size f.data_type ≡ some k
      → str_eq f.data_type "uint8" ≡ false
      → str_eq f.data_type "int8" ≡ false
      → str_eq f.data_type "enum" ≡ false
      → is_ok (read_common a f bytes) ≡ true
  unfolding echonet_lite_size read_common
  read_common_ok_lite f bytes k h u i e = ground arith

  text_ok :
      (m : List (ℤ × String)) (k : ℤ)
      → is_ok (text_of a (map_enum_to_string m k)) ≡ is_some (find_enum k m)
  unfolding map_enum_to_string
  text_ok m k = ground arith

  has_modbus_size :
      (f : VariableFields n)
      → validate_modbus f ≡ none
      → (k : ℕ) × (modbus_size f.data_type ≡ some k)
  unfolding validate_modbus modbus_size
  has_modbus_size f h = elim (Option-cases (modbus_size f.data_type)) [
    | inl e ↦ absurd (ground arith)
    | inr x ↦ x
  ]

  has_echonet_lite_size :
      (f : VariableFields n)
      → validate_echonet_lite f ≡ none
      → (k : ℕ) × (echonet_lite_size f.data_type ≡ some k)
  unfolding validate_echonet_lite echonet_lite_size
  has_echonet_lite_size f h = elim (Option-cases (echonet_lite_size f.data_type)) [
    | inl e ↦ absurd (ground arith)
    | inr x ↦ x
  ]

  modbus_readable :
      (f : VariableFields n) (bytes : List ℕ)
      → validate_modbus f ≡ none
      → (k : ℕ) × ((modbus_size f.data_type ≡ some k)
          × (is_ok (convert_modbus_data_to_ocpp a f bytes)
              ≡ (leb k (length bytes) && known f (word_of bytes))))
  unfolding convert_modbus_data_to_ocpp
  modbus_readable f bytes h =
      let (k, e) = has_modbus_size f h in
      (
        k,
        (
          e,
          rw (convert_modbus_data_to_ocpp, e)
              (ground
                (arith, read_common_ok f bytes k e, text_ok f.enum_map (pos (word_of bytes)))),
        ),
      )

  echonet_lite_cases :
      (f : VariableFields n) (bytes : List ℕ) (k : ℕ)
      → echonet_lite_size f.data_type ≡ some k
      → is_ok (
          sized a f (some k) bytes (
            if str_eq f.data_type "uint8"
            then scaled a f (pos (get_or bytes 0 0))
            else if str_eq f.data_type "int8"
            then scaled a f (signed 8 (get_or bytes 0 0))
            else if str_eq f.data_type "enum"
            then text_of a (map_enum_to_string f.enum_map (pos (get_or bytes 0 0)))
            else read_common a f bytes))
        ≡ (leb k (length bytes) && known f (get_or bytes 0 0))
  echonet_lite_cases f bytes k e = elim (Bool-cases (str_eq f.data_type "uint8")) [
    | inl u ↦ rw ((eq_iff f.data_type "uint8").0 u) (ground arith)
    | inr u ↦ elim (Bool-cases (str_eq f.data_type "int8")) [
      | inl i ↦ rw ((eq_iff f.data_type "int8").0 i) (ground arith)
      | inr i ↦
          rw (u, i)
            (ground (
              arith,
              read_common_ok_lite f bytes k e u i,
              text_ok f.enum_map (pos (get_or bytes 0 0)),
            ))
    ]
  ]

  echonet_lite_readable :
      (f : VariableFields n) (bytes : List ℕ)
      → validate_echonet_lite f ≡ none
      → (k : ℕ) × ((echonet_lite_size f.data_type ≡ some k)
          × (is_ok (convert_echonet_lite_data_to_ocpp a f bytes)
              ≡ (leb k (length bytes) && known f (get_or bytes 0 0))))
  unfolding convert_echonet_lite_data_to_ocpp
  echonet_lite_readable f bytes h =
      let (k, e) = has_echonet_lite_size f h in
      (k, (e, rw (convert_echonet_lite_data_to_ocpp, e) (echonet_lite_cases f bytes k e)))

  abbrev IsMapping : String → VariableMapping n → Type 0
  IsMapping type (modbus f) = (str_eq type "modbus" ≡ true) × (validate_modbus f ≡ none)
  IsMapping type (echonet_lite f) =
      (str_eq type "modbus" ≡ false)
      × ((str_eq type "echonet_lite" ≡ true) × (validate_echonet_lite f ≡ none))

  -- The mapping of a variable that passes validation passes too, and is of the kind of its type.
  valid_mapping :
      (var : OcppVariable n) (m : VariableMapping n)
      → var.mapping ≡ m
      → validate_variable var ≡ none
      → IsMapping var.type m
  unfolding validate_variable
  valid_mapping var (modbus f) e h = ground arith
  valid_mapping var (echonet_lite f) e h = ground arith

  pub variable_readable :
      (name : String) (var : OcppVariable n) (m : VariableMapping n) (bytes : List ℕ)
      → var.mapping ≡ m
      → validate_variable var ≡ none
      → is_ok (variable_to_ocpp a name var (data_for m bytes)) ≡ readable_by m bytes
  unfolding variable_to_ocpp
  variable_readable name var (modbus f) bytes e h =
      let (t, v) = valid_mapping var (modbus f) e h in
      let (k, (s, r)) = modbus_readable f bytes v in rw (variable_to_ocpp, t, e, s) r
  variable_readable name var (echonet_lite f) bytes e h =
      let (m, (t, v)) = valid_mapping var (echonet_lite f) e h in
      let (k, (s, r)) = echonet_lite_readable f bytes v in rw (variable_to_ocpp, m, t, e, s) r

  -- The data are for the kind of device that the variable's type names.
  abbrev pub IsFor : OcppVariable n → DeviceData → Type 0
  IsFor var (modbus_data bytes) = var.type ≡ "modbus"
  IsFor var (echonet_lite_data bytes) = var.type ≡ "echonet_lite"

  variable_to_device-IsFor :
      (name : String) (var : OcppVariable n) (v : OcppValue n) (d : DeviceData)
      → variable_to_device a name var v ≡ ok d
      → (var.read_only ≡ false) × IsFor var d
  unfolding variable_to_device
  variable_to_device-IsFor name var v (modbus_data bytes) h =
      ground (arith, eq_iff var.type "modbus", eq_iff var.type "echonet_lite")
  variable_to_device-IsFor name var v (echonet_lite_data bytes) h =
      ground (arith, eq_iff var.type "modbus", eq_iff var.type "echonet_lite")

  -- Data are given out to be written only for a variable that the template has and that is not read-only,
  -- and they are for the kind of device that the variable's type names.
  pub translate_to_device-IsFor :
      (t : MappingTemplate n) (name : String) (v : OcppValue n) (d : DeviceData)
      → translate_to_device a t name v ≡ ok d
      → (var : OcppVariable n) × ((get_variable name t ≡ some var)
          × ((var.read_only ≡ false) × IsFor var d))
  unfolding translate_to_device
  translate_to_device-IsFor t name v d h = elim (Option-cases (get_variable name t)) [
    | inl e ↦ absurd (ground arith)
    | inr (var, e) ↦ (var, (e, variable_to_device-IsFor name var v d (ground arith)))
  ]
