-- ===== src/Mapping/Translator/Values.antt =====
-- Bytes of integers, enumerations, and the sizes of the data types.
use ocpp_gw.Base.{
  ℕ, ◌+◌, ◌-◌, ◌*◌, ◌/◌, ◌%◌, ◌^◌, ℤ, pos, negsuc, int_eq, String, Bool, ◌||◌, Option, none, some,
  List, [], ◌∷◌, get_or, ltb, str_eq, if◌then◌else◌,
}
use ocpp_gw.Mapping.Translator.{Translated, enum_value_not_found, enum_string_not_found, ok, throws}

-- Two's complement of width `w`.
abbrev pub pattern_of : ℕ → ℤ → ℕ
pattern_of w (pos n) = n % 2 ^ w
pattern_of w (negsuc n) = 2 ^ w - 1 - n % 2 ^ w

abbrev pub signed : ℕ → ℕ → ℤ
signed w p = if ltb (2 * p) (2 ^ w) then pos p else negsuc (2 ^ w - 1 - p)

abbrev pub word_of : List ℕ → ℕ
word_of bytes = get_or bytes 0 0 * 256 + get_or bytes 1 0

abbrev pub double_word_of : List ℕ → ℕ
double_word_of bytes =
    get_or bytes 0 0 * 2 ^ 24
    + get_or bytes 1 0 * 2 ^ 16
    + get_or bytes 2 0 * 2 ^ 8
    + get_or bytes 3 0

abbrev pub two_bytes : ℕ → List ℕ
two_bytes p = (p / 256) ∷ (p % 256) ∷ []

abbrev pub four_bytes : ℕ → List ℕ
four_bytes p = (p / 2 ^ 24) ∷ (p / 2 ^ 16 % 256) ∷ (p / 2 ^ 8 % 256) ∷ (p % 256) ∷ []

abbrev pub narrow : ℤ → List ℕ
narrow k = pattern_of 8 k ∷ []

abbrev pub half : ℤ → List ℕ
half k = two_bytes (pattern_of 16 k)

abbrev pub wide : ℤ → List ℕ
wide k = four_bytes (pattern_of 32 k)

-- `enum_map.find(value)`
unfoldable pub find_enum : ℤ → List (ℤ × String) → Option String
find_enum k [] = none
find_enum k ((j, s) ∷ ms) = if int_eq j k then some s else find_enum k ms

-- The key of the first pair with that text.
unfoldable pub find_key : String → List (ℤ × String) → Option ℤ
find_key s [] = none
find_key s ((j, t) ∷ ms) = if str_eq t s then some j else find_key s ms

unfoldable pub map_enum_to_string : List (ℤ × String) → ℤ → Translated String
map_enum_to_string m k = elim (find_enum k m) [
  | none ↦ throws (enum_value_not_found k)
  | some s ↦ ok s
]

unfoldable pub map_enum_to_int : List (ℤ × String) → String → Translated ℤ
map_enum_to_int m s = elim (find_key s m) [
  | none ↦ throws (enum_string_not_found s)
  | some k ↦ ok k
]

abbrev pub is_two : String → Bool
is_two t = str_eq t "uint16" || str_eq t "int16"

abbrev is_four : String → Bool
is_four t = str_eq t "uint32" || str_eq t "int32" || str_eq t "float32"

unfoldable pub modbus_size : String → Option ℕ
modbus_size t =
    if is_two t
    then some 2
    else if is_four t
    then some 4
    else if str_eq t "boolean"
    then some 1
    else if str_eq t "string"
    then some 1
    else if str_eq t "enum"
    then some 2
    else none

unfoldable pub echonet_lite_size : String → Option ℕ
echonet_lite_size t =
    if str_eq t "uint8" || str_eq t "int8" || str_eq t "boolean"
    then some 1
    else if is_two t
    then some 2
    else if is_four t
    then some 4
    else if str_eq t "string"
    then some 1
    else if str_eq t "enum"
    then some 1
    else none
