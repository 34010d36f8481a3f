-- ===== src/Mapping/Translator/RoundTrip.antt =====
-- A value written to a device and read back.
use ocpp_gw.Base.{ℤ, String, ◌≡◌, refl, false, some}
use ocpp_gw.Mapping.Template.{
  Numbers, VariableFields, modbus, echonet_lite, OcppVariable, MappingTemplate, get_variable,
}
use ocpp_gw.Mapping.Translator.{
  Arithmetic, OcppValue, int, string, ok, DeviceData, modbus_data, echonet_lite_data,
}
use ocpp_gw.Mapping.Translator.Values.{
  half, narrow, find_enum, find_key, modbus_size, echonet_lite_size,
}
use ocpp_gw.Mapping.Translator.Convert.{
  convert_modbus_data_to_ocpp, convert_echonet_lite_data_to_ocpp, convert_ocpp_to_modbus_data,
  convert_ocpp_to_echonet_lite_data,
}
use ocpp_gw.Mapping.Translator.Translate.{
  variable_to_device, translate_to_device, variable_to_ocpp, translate_to_ocpp,
}
use ocpp_gw.Mapping.Translator.Words.{
  FitsUnsigned, FitsSigned, word_of-half, unsigned_byte, signed_byte, key_of, text_at,
}
use ocpp_gw.Mapping.Translator.Common.{written, seen, Carries, ComesBack, seen_back, back_common}

module _ {n : Numbers} (a : Arithmetic n) where
  open a use {
    of_int, to_int, round, times, divide, float_bits, of_float_bits, string_bytes, string_of,
  }

  back_modbus :
      (f : VariableFields n) (v : OcppValue n)
      → Carries a f v
      → ComesBack a (convert_ocpp_to_modbus_data a f) (convert_modbus_data_to_ocpp a f) v
  unfolding convert_ocpp_to_modbus_data convert_modbus_data_to_ocpp
  back_modbus f v c =
      let (bytes, (w, (r, ((e, _), (k, (m, (_, l))))))) = back_common a f v c in
      (bytes, (rw e w, rw (m, l, e) r))

  back_echonet_lite :
      (f : VariableFields n) (v : OcppValue n)
      → Carries a f v
      → ComesBack a
          (convert_ocpp_to_echonet_lite_data a f)
          (convert_echonet_lite_data_to_ocpp a f)
          v
  unfolding convert_ocpp_to_echonet_lite_data convert_echonet_lite_data_to_ocpp
  back_echonet_lite f v c =
      let (bytes, (w, (r, ((e, (e8, i8)), (k, (_, (m, l))))))) = back_common a f v c in
      (bytes, (rw (e8, i8, e) w, rw (m, l, e8, i8, e) r))

  -- A mapping, a value, and the bytes and the texts of an enumeration that it may be.
  pub data CarriesModbus (f : VariableFields n) : OcppValue n → Type 0 where
    common : {v : OcppValue n} → Carries a f v → CarriesModbus f v
    enum :
        (s : String) (k : ℤ)
        → f.data_type ≡ "enum"
        → find_key s f.enum_map ≡ some k
        → find_enum k f.enum_map ≡ some s
        → FitsUnsigned 16 k
        → CarriesModbus f (string s)

  pub data CarriesEchonetLite (f : VariableFields n) : OcppValue n → Type 0 where
    common : {v : OcppValue n} → Carries a f v → CarriesEchonetLite f v
    uint8 :
        (k : ℤ)
        → f.data_type ≡ "uint8"
        → FitsUnsigned 8 (written a f k)
        → seen a f (written a f k) ≡ k
        → CarriesEchonetLite f (int k)
    int8 :
        (k : ℤ)
        → f.data_type ≡ "int8"
        → FitsSigned 8 (written a f k)
        → seen a f (written a f k) ≡ k
        → CarriesEchonetLite f (int k)
    enum :
        (s : String) (k : ℤ)
        → f.data_type ≡ "enum"
        → find_key s f.enum_map ≡ some k
        → find_enum k f.enum_map ≡ some s
        → FitsUnsigned 8 k
        → CarriesEchonetLite f (string s)

  modbus_back :
      (f : VariableFields n) (v : OcppValue n)
      → CarriesModbus f v
      → ComesBack a (convert_ocpp_to_modbus_data a f) (convert_modbus_data_to_ocpp a f) v
  unfolding convert_ocpp_to_modbus_data convert_modbus_data_to_ocpp modbus_size
  modbus_back f v (common c) = back_modbus f v c
  modbus_back f (string s) (enum _ k e to back fits) = (
    half k,
    (
      rw (e, key_of s k f.enum_map to) refl,
      rw (e, word_of-half k fits, text_at s k f.enum_map back) refl,
    ),
  )

  echonet_lite_back :
      (f : VariableFields n) (v : OcppValue n)
      → CarriesEchonetLite f v
      → ComesBack a
          (convert_ocpp_to_echonet_lite_data a f)
          (convert_echonet_lite_data_to_ocpp a f)
          v
  unfolding convert_ocpp_to_echonet_lite_data convert_echonet_lite_data_to_ocpp echonet_lite_size
  echonet_lite_back f v (common c) = back_echonet_lite f v c
  echonet_lite_back f (int k) (uint8 _ e fits same) =
      let q = written a f k in
      (narrow q, (rw e refl, rw e (seen_back a f k _ (unsigned_byte q fits) same)))
  echonet_lite_back f (int k) (int8 _ e fits same) =
      let q = written a f k in
      (narrow q, (rw e refl, rw e (seen_back a f k _ (signed_byte q fits) same)))
  echonet_lite_back f (string s) (enum _ k e to back fits) = (
    narrow k,
    (
      rw (e, key_of s k f.enum_map to) refl,
      rw (e, unsigned_byte k fits, text_at s k f.enum_map back) refl,
    ),
  )

  -- A writable variable of one of the two kinds, and a value that its mapping can carry.
  pub data CanCarry (var : OcppVariable n) (v : OcppValue n) : Type 0 where
    by_modbus :
        (f : VariableFields n)
        → var.type ≡ "modbus"
        → var.mapping ≡ modbus f
        → CarriesModbus f v
        → CanCarry var v
    by_echonet_lite :
        (f : VariableFields n)
        → var.type ≡ "echonet_lite"
        → var.mapping ≡ echonet_lite f
        → CarriesEchonetLite f v
        → CanCarry var v

  variable_back :
      (name : String) (var : OcppVariable n) (v : OcppValue n)
      → var.read_only ≡ false
      → CanCarry var v
      → (device : DeviceData) × ((variable_to_device a name var v ≡ ok device)
          × (variable_to_ocpp a name var device ≡ ok v))
  unfolding variable_to_device variable_to_ocpp
  variable_back name var v free (by_modbus f t m c) =
      let (bytes, (w, r)) = modbus_back f v c in
      (modbus_data bytes, (rw (free, t, m, w) refl, rw (t, m) r))
  variable_back name var v free (by_echonet_lite f t m c) =
      let (bytes, (w, r)) = echonet_lite_back f v c in
      (echonet_lite_data bytes, (rw (free, t, m, w) refl, rw (t, m) r))

  -- A value for a variable of the template that is not read-only and whose mapping can carry it (the number
  -- written a fits the data type and scales back to the value; a float survives; a text is not empty; the text of an
  -- enumeration is listed, under a key that fits) is translated, and its translation is translated back to it.
  pub translate_to_ocpp-translate_to_device :
      (t : MappingTemplate n) (name : String) (var : OcppVariable n) (v : OcppValue n)
      → get_variable name t ≡ some var
      → var.read_only ≡ false
      → CanCarry var v
      → (device : DeviceData) × ((translate_to_device a t name v ≡ ok device)
          × (translate_to_ocpp a t name device ≡ ok v))
  unfolding translate_to_device translate_to_ocpp
  translate_to_ocpp-translate_to_device t name var v found free c =
      let (device, (w, r)) = variable_back name var v free c in
      (device, (rw (translate_to_device, found) w, rw (translate_to_ocpp, found) r))
