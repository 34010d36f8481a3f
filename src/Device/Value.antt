-- ===== src/Device/Value.antt =====
-- `RegisterValue`: the big-endian getters and setters. A signed value is its two's complement
-- pattern and a floating-point value its IEEE 754 pattern, so casts and `memcpy` keep the number.
use ocpp_gw.Base.{
  ℕ, zero, suc, ◌+◌, ◌*◌, ◌/◌, ◌%◌, ◌^◌, Bool, false, not, List, [], ◌∷◌, ltb, ◌==◌, if◌then◌else◌,
  length, take,
}
use ocpp_gw.Device.Types.{
  bool, uint8, int8, uint16, uint32, uint64, float32, float64, RegisterValue,
}

unfoldable pub get_bool : RegisterValue → Bool
get_bool v = elim v.bytes [ [] ↦ false | b ∷ rest ↦ not (b == 0) ]

-- Also `getInt8`.
unfoldable pub get_uint8 : RegisterValue → ℕ
get_uint8 v = elim v.bytes [ [] ↦ 0 | b ∷ rest ↦ b ]

abbrev word_of : List ℕ → ℕ
word_of (a ∷ b ∷ rest) = a * 256 + b
word_of _ = 0

-- Also `getInt16`.
unfoldable pub get_uint16 : RegisterValue → ℕ
get_uint16 v = word_of v.bytes

abbrev double_word_of : List ℕ → ℕ
double_word_of (a ∷ b ∷ c ∷ d ∷ rest) = a * 2 ^ 24 + b * 2 ^ 16 + c * 2 ^ 8 + d
double_word_of _ = 0

-- Also `getInt32` and `getFloat32`.
unfoldable pub get_uint32 : RegisterValue → ℕ
get_uint32 v = double_word_of v.bytes

-- `result = (result << 8) | data[i]` in a `uint64_t`, from the first byte on.
unfoldable pub shift_in : ℕ → List ℕ → ℕ
shift_in acc [] = acc
shift_in acc (b ∷ bs) = shift_in (acc * 256 % 2 ^ 64 + b) bs

-- Also `getInt64` and `getFloat64`.
unfoldable pub get_uint64 : RegisterValue → ℕ
unfolding shift_in
get_uint64 v = if ltb (length v.bytes) 8 then 0 else shift_in 0 (take 8 v.bytes)

unfoldable pub set_bool : Bool → RegisterValue
set_bool b = record { type = bool; bytes = (if b then 1 else 0) ∷ [] }

unfoldable pub set_uint8 : ℕ → RegisterValue
set_uint8 n = record { type = uint8; bytes = n ∷ [] }

unfoldable pub set_int8 : ℕ → RegisterValue
set_int8 n = record { type = int8; bytes = n ∷ [] }

unfoldable pub set_uint16 : ℕ → RegisterValue
set_uint16 n = record { type = uint16; bytes = (n / 256 % 256) ∷ (n % 256) ∷ [] }

abbrev four_bytes : ℕ → List ℕ
four_bytes n = (n / 2 ^ 24 % 256) ∷ (n / 2 ^ 16 % 256) ∷ (n / 2 ^ 8 % 256) ∷ (n % 256) ∷ []

unfoldable pub set_uint32 : ℕ → RegisterValue
set_uint32 n = record { type = uint32; bytes = four_bytes n }

-- The last `k` of the eight rounds `data[i] = value >> ((7 - i) * 8)`.
abbrev bytes_from : ℕ → ℕ → List ℕ
bytes_from zero n = []
bytes_from (suc k) n = (n / 2 ^ (k * 8) % 256) ∷ bytes_from k n

unfoldable pub set_uint64 : ℕ → RegisterValue
set_uint64 n = record { type = uint64; bytes = bytes_from 8 n }

-- The signed setters set the type and then call the unsigned setter, which sets it again.
unfoldable pub set_int16 : ℕ → RegisterValue
unfolding set_uint16
set_int16 n = set_uint16 n

unfoldable pub set_int32 : ℕ → RegisterValue
unfolding set_uint32
set_int32 n = set_uint32 n

unfoldable pub set_int64 : ℕ → RegisterValue
unfolding set_uint64
set_int64 n = set_uint64 n

unfoldable pub set_float32 : ℕ → RegisterValue
set_float32 bits = record { type = float32; bytes = four_bytes bits }

unfoldable pub set_float64 : ℕ → RegisterValue
set_float64 bits = record { type = float64; bytes = bytes_from 8 bits }
