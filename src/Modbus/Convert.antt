-- ===== src/Modbus/Convert.antt =====
-- `convertToRegisterValue` and `convertFromRegisterValue`. A register is a word below 65536, the
-- most significant word of a value comes first, and signed and floating-point values are patterns.
use ocpp_gw.Base.{
  ℕ, ◌+◌, ◌*◌, ◌/◌, ◌%◌, ◌^◌, not, List, [], ◌∷◌, leb, ◌==◌, if◌then◌else◌, get_or, take,
}
use ocpp_gw.Device.Types.{
  DataType, bool, uint8, int8, uint16, int16, uint32, int32, uint64, int64, float32, float64,
  binary, RegisterValue,
}
use ocpp_gw.Device.Value.{
  get_bool, get_uint8, get_uint16, get_uint32, get_uint64, set_bool, set_uint8, set_int8,
  set_uint16, set_int16, set_uint32, set_int32, set_uint64, set_int64, set_float32, set_float64,
}

abbrev two_words : List ℕ → ℕ
two_words data' = get_or data' 0 0 * 2 ^ 16 + get_or data' 1 0

abbrev four_words : List ℕ → ℕ
four_words data' =
    get_or data' 0 0 * 2 ^ 48
    + get_or data' 1 0 * 2 ^ 32
    + get_or data' 2 0 * 2 ^ 16
    + get_or data' 3 0

abbrev pub bytes_of : List ℕ → List ℕ
bytes_of [] = []
bytes_of (w ∷ ws) = (w / 256 % 256) ∷ (w % 256) ∷ bytes_of ws

-- `data'` is the array, of which `count` words belong to the value.
unfoldable pub convert_to_register_value : List ℕ → ℕ → DataType → RegisterValue
convert_to_register_value data' count bool = set_bool (not (get_or data' 0 0 == 0))
convert_to_register_value data' count uint8 = set_uint8 (get_or data' 0 0 % 256)
convert_to_register_value data' count int8 = set_int8 (get_or data' 0 0 % 256)
convert_to_register_value data' count uint16 = set_uint16 (get_or data' 0 0)
convert_to_register_value data' count int16 = set_int16 (get_or data' 0 0)
convert_to_register_value data' count uint32 =
    if leb 2 count then set_uint32 (two_words data') else set_uint32 (get_or data' 0 0)
convert_to_register_value data' count int32 =
    if leb 2 count then set_int32 (two_words data') else set_int32 (get_or data' 0 0)
convert_to_register_value data' count float32 =
    if leb 2 count then set_float32 (two_words data') else set_float32 0
convert_to_register_value data' count uint64 =
    if leb 4 count
    then set_uint64 (four_words data')
    else if leb 2 count
    then set_uint64 (two_words data')
    else set_uint64 (get_or data' 0 0)
convert_to_register_value data' count int64 =
    if leb 4 count
    then set_int64 (four_words data')
    else if leb 2 count
    then set_int64 (two_words data')
    else set_int64 (get_or data' 0 0)
convert_to_register_value data' count float64 =
    if leb 4 count then set_float64 (four_words data') else set_float64 0
convert_to_register_value data' count _ = record {
  type = binary;
  bytes = bytes_of (take count data');
}

-- An odd last byte is the high byte of a word.
abbrev pub words_of : List ℕ → List ℕ
words_of [] = []
words_of (a ∷ []) = (a * 256) ∷ []
words_of (a ∷ b ∷ rest) = (a * 256 + b) ∷ words_of rest

abbrev split_two : ℕ → List ℕ
split_two n = (n / 2 ^ 16 % 2 ^ 16) ∷ (n % 2 ^ 16) ∷ []

abbrev split_four : ℕ → List ℕ
split_four n =
    (n / 2 ^ 48 % 2 ^ 16) ∷ (n / 2 ^ 32 % 2 ^ 16) ∷ (n / 2 ^ 16 % 2 ^ 16) ∷ (n % 2 ^ 16) ∷ []

abbrev words_by : DataType → RegisterValue → List ℕ
words_by bool v = (if get_bool v then 1 else 0) ∷ []
words_by uint8 v = get_uint8 v ∷ []
words_by int8 v = get_uint8 v ∷ []
words_by uint16 v = get_uint16 v ∷ []
words_by int16 v = get_uint16 v ∷ []
words_by uint32 v = split_two (get_uint32 v)
words_by int32 v = split_two (get_uint32 v)
words_by float32 v = split_two (get_uint32 v)
words_by uint64 v = split_four (get_uint64 v)
words_by int64 v = split_four (get_uint64 v)
words_by float64 v = split_four (get_uint64 v)
words_by _ v = words_of v.bytes

-- The out-parameter `count` is the length of the result on every branch.
unfoldable pub convert_from_register_value : RegisterValue → List ℕ
convert_from_register_value v = words_by v.type v
