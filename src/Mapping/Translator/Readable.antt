-- ===== src/Mapping/Translator/Readable.antt =====
-- Which bytes are translated to an OCPP value, from the data types' widths.
use ocpp_gw.Base.{
  ℕ, ◌+◌, ◌*◌, pos, int_eq, String, ◌≡◌, refl, ap, ◌∙◌, Bool, Bool-cases, false, not, ◌&&◌, ◌||◌,
  inl, inr, none, some, is_some, List, [], ◌∷◌, length, leb, get_or, any, str_eq, if◌then◌else◌,
  eq_iff, arith, ℤ,
}
use ocpp_gw.Mapping.Template.{
  Numbers, VariableFields, VariableMapping, modbus, echonet_lite, OcppVariable, MappingTemplate,
  get_variable,
}
use ocpp_gw.Mapping.Validate.{validate_variable}
use ocpp_gw.Mapping.Translator.{Arithmetic}
use ocpp_gw.Mapping.Translator.Values.{word_of, find_enum, modbus_size, echonet_lite_size}
use ocpp_gw.Mapping.Translator.Translate.{translate_to_ocpp}
use ocpp_gw.Mapping.Translator.Refusals.{
  is_ok, data_for, known, enough, readable_by, variable_readable,
}

-- How many bytes each data type takes from a Modbus device, and from an ECHONET Lite device.
abbrev pub modbus_widths : List (String × ℕ)
modbus_widths =
    ("uint16", 2)
    ∷ ("int16", 2)
    ∷ ("uint32", 4)
    ∷ ("int32", 4)
    ∷ ("float32", 4)
    ∷ ("boolean", 1)
    ∷ ("string", 1)
    ∷ ("enum", 2)
    ∷ []

abbrev pub echonet_lite_widths : List (String × ℕ)
echonet_lite_widths =
    ("uint8", 1)
    ∷ ("int8", 1)
    ∷ ("boolean", 1)
    ∷ ("uint16", 2)
    ∷ ("int16", 2)
    ∷ ("uint32", 4)
    ∷ ("int32", 4)
    ∷ ("float32", 4)
    ∷ ("string", 1)
    ∷ ("enum", 1)
    ∷ []

-- The table has the data type, with at most as many bytes as there are.
abbrev pub wide_enough : List (String × ℕ) → String → List ℕ → Bool
wide_enough [] type bytes = false
wide_enough ((t, w) ∷ table) type bytes =
    if str_eq type t then leb w (length bytes) else wide_enough table type bytes

-- An enumeration lists the number; any other data type need not.
abbrev pub listed : {n : Numbers} → VariableFields n → ℕ → Bool
listed f k = not (str_eq f.data_type "enum") || any (λ p. int_eq p.0 (pos k)) f.enum_map

-- The number in one byte, and in two with the high one first.
abbrev pub byte_number : List ℕ → ℕ
byte_number (a ∷ _) = a
byte_number _ = 0

abbrev pub word_number : List ℕ → ℕ
word_number (a ∷ b ∷ _) = 256 * a + b
word_number _ = 0

-- Bytes that a mapping's data type can be read from.
abbrev pub readable : {n : Numbers} → VariableMapping n → List ℕ → Bool
readable (modbus f) bytes =
    wide_enough modbus_widths f.data_type bytes && listed f (word_number bytes)
readable (echonet_lite f) bytes =
    wide_enough echonet_lite_widths f.data_type bytes && listed f (byte_number bytes)

enough_modbus :
    (type : String) (bytes : List ℕ)
    → enough (modbus_size type) bytes ≡ wide_enough modbus_widths type bytes
unfolding modbus_size
enough_modbus type bytes = ground arith

enough_echonet_lite :
    (type : String) (bytes : List ℕ)
    → enough (echonet_lite_size type) bytes ≡ wide_enough echonet_lite_widths type bytes
unfolding echonet_lite_size
enough_echonet_lite type bytes = ground arith

find_enum-any :
    (k : ℤ) (m : List (ℤ × String)) → is_some (find_enum k m) ≡ any (λ p. int_eq p.0 k) m
unfolding find_enum
find_enum-any k [] = refl
find_enum-any k ((j, t) ∷ m) = ground (arith, find_enum-any k m)

module _ {n : Numbers} where
  known-listed : (f : VariableFields n) (k : ℕ) → known f k ≡ listed f k
  known-listed f k =
      ap (λ b. not (str_eq f.data_type "enum") || b) (find_enum-any (pos k) f.enum_map)

  -- Too few bytes for the number are too few for an enumeration.
  readable_modbus :
      (f : VariableFields n) (bytes : List ℕ)
      → (wide_enough modbus_widths f.data_type bytes && listed f (word_of bytes))
        ≡ (wide_enough modbus_widths f.data_type bytes && listed f (word_number bytes))
  readable_modbus f [] = ground arith
  readable_modbus f (b ∷ []) = elim (Bool-cases (str_eq f.data_type "enum")) [
    | inl e ↦ rw ((eq_iff f.data_type "enum").0 e) refl
    | inr e ↦ rw e refl
  ]
  readable_modbus f (a ∷ b ∷ bytes) =
      ap (λ k. wide_enough modbus_widths f.data_type (a ∷ b ∷ bytes) && listed f k) (omega arith)

  readable_echonet_lite :
      (f : VariableFields n) (bytes : List ℕ)
      → listed f (get_or bytes 0 0) ≡ listed f (byte_number bytes)
  readable_echonet_lite f [] = refl
  readable_echonet_lite f (b ∷ bytes) = refl

  readable_by-readable :
      (m : VariableMapping n) (bytes : List ℕ) → readable_by m bytes ≡ readable m bytes
  readable_by-readable (modbus f) bytes =
      rw (enough_modbus f.data_type bytes, known-listed f (word_of bytes)) (readable_modbus f bytes)
  readable_by-readable (echonet_lite f) bytes =
      rw
        (
          enough_echonet_lite f.data_type bytes,
          known-listed f (get_or bytes 0 0),
          readable_echonet_lite f bytes,
        )
        refl

module _ {n : Numbers} (a : Arithmetic n) where
  -- Bytes read for a variable of the template that passes validation, from a device of its kind, are
  -- translated exactly if there are as many as the table of widths says for its data type and, for an
  -- enumeration, the number that they hold is listed.
  pub translate_to_ocpp-readable :
      (t : MappingTemplate n) (name : String) (var : OcppVariable n) (bytes : List ℕ)
      → get_variable name t ≡ some var
      → validate_variable var ≡ none
      → is_ok (translate_to_ocpp a t name (data_for var.mapping bytes)) ≡ readable var.mapping bytes
  unfolding translate_to_ocpp
  translate_to_ocpp-readable t name var bytes found h =
      rw (translate_to_ocpp, found)
        (variable_readable a name var var.mapping bytes refl h
          ∙ readable_by-readable var.mapping bytes)
