-- ===== src/Modbus/RoundTrip.antt =====
-- A value survives the way through register words, and words the way through a value.
use ocpp_gw.Base.{ℕ, ◌%◌, ◌<◌, ◌≡◌, refl, ap, List, [], ◌∷◌, length, All, arith, take, ◌⊎◌}
use ocpp_gw.Device.Types.{
  DataType, bool, uint8, int8, uint16, int16, uint32, int32, uint64, int64, float32, float64,
  string, binary,
}
use ocpp_gw.Device.Value.{
  get_bool, get_uint8, get_uint16, get_uint32, get_uint64, set_bool, set_uint8, set_int8,
  set_uint16, set_int16, set_uint32, set_int32, set_uint64, set_int64, set_float32, set_float64,
}
use ocpp_gw.Modbus.Convert.{
  bytes_of, words_of, convert_to_register_value, convert_from_register_value,
}

abbrev pub IsByte : ℕ → Type 0
IsByte b = b < 256

abbrev pub IsWord : ℕ → Type 0
IsWord w = w < 65536

-- How many registers a value of a type takes; any number for text and raw bytes.
abbrev pub Takes : DataType → ℕ → Type 0
Takes uint16 n = n ≡ 1
Takes int16 n = n ≡ 1
Takes uint32 n = n ≡ 2
Takes int32 n = n ≡ 2
Takes float32 n = n ≡ 2
Takes uint64 n = n ≡ 4
Takes int64 n = n ≡ 4
Takes float64 n = n ≡ 4
Takes string n = Unit
Takes binary n = Unit
Takes _ n = ⊥

take-length {ℓ} : {A : Type ℓ} (xs : List A) → take (length xs) xs ≡ xs
take-length [] = refl
take-length (x ∷ xs) = ap (◌∷◌ x) (take-length xs)

words_of-bytes_of : (ws : List ℕ) → All IsWord ws → words_of (bytes_of ws) ≡ ws
words_of-bytes_of [] h = refl
words_of-bytes_of (w ∷ ws) (h, hs) = ground (arith, words_of-bytes_of ws hs)

-- Words read from a device as a value of a type that takes so many words, and turned back into words
-- for writing, are the same words.
pub convert_from-convert_to :
    (type : DataType) (ws : List ℕ)
    → All IsWord ws
    → Takes type (length ws)
    → convert_from_register_value (convert_to_register_value ws (length ws) type) ≡ ws
unfolding convert_from_register_value convert_to_register_value set_uint16 set_int16 set_uint32
    set_int32 set_uint64 set_int64 set_float32 set_float64 get_uint16 get_uint32 get_uint64
convert_from-convert_to uint16 (a ∷ []) h t = ground arith
convert_from-convert_to uint16 _ h t = absurd (omega arith)
convert_from-convert_to int16 (a ∷ []) h t = ground arith
convert_from-convert_to int16 _ h t = absurd (omega arith)
convert_from-convert_to uint32 (a ∷ b ∷ []) h t = ground arith
convert_from-convert_to uint32 _ h t = absurd (omega arith)
convert_from-convert_to int32 (a ∷ b ∷ []) h t = ground arith
convert_from-convert_to int32 _ h t = absurd (omega arith)
convert_from-convert_to float32 (a ∷ b ∷ []) h t = ground arith
convert_from-convert_to float32 _ h t = absurd (omega arith)
convert_from-convert_to uint64 (a ∷ b ∷ c ∷ d ∷ []) h t = ground arith
convert_from-convert_to uint64 _ h t = absurd (omega arith)
convert_from-convert_to int64 (a ∷ b ∷ c ∷ d ∷ []) h t = ground arith
convert_from-convert_to int64 _ h t = absurd (omega arith)
convert_from-convert_to float64 (a ∷ b ∷ c ∷ d ∷ []) h t = ground arith
convert_from-convert_to float64 _ h t = absurd (omega arith)
convert_from-convert_to string ws h t = rw take-length (words_of-bytes_of ws h)
convert_from-convert_to binary ws h t = rw take-length (words_of-bytes_of ws h)
convert_from-convert_to _ ws h t = absurd t

-- How many bytes a value of a type has, all of them in use; text and raw bytes fill whole words.
abbrev pub IsSized : DataType → List ℕ → Type 0
IsSized bool bytes = (bytes ≡ 0 ∷ []) ⊎ (bytes ≡ 1 ∷ [])
IsSized uint8 bytes = length bytes ≡ 1
IsSized int8 bytes = length bytes ≡ 1
IsSized uint16 bytes = length bytes ≡ 2
IsSized int16 bytes = length bytes ≡ 2
IsSized uint32 bytes = length bytes ≡ 4
IsSized int32 bytes = length bytes ≡ 4
IsSized float32 bytes = length bytes ≡ 4
IsSized uint64 bytes = length bytes ≡ 8
IsSized int64 bytes = length bytes ≡ 8
IsSized float64 bytes = length bytes ≡ 8
IsSized _ bytes = length bytes % 2 ≡ 0

-- The type that the value has afterwards: the setters of the wide signed types leave the unsigned one.
abbrev pub type_after : DataType → DataType
type_after int16 = uint16
type_after int32 = uint32
type_after int64 = uint64
type_after string = binary
type_after DataType.unknown = binary
type_after t = t

bytes_of-words_of :
    (bytes : List ℕ) → All IsByte bytes → length bytes % 2 ≡ 0 → bytes_of (words_of bytes) ≡ bytes
bytes_of-words_of [] h e = refl
bytes_of-words_of (a ∷ []) h e = absurd (omega arith)
bytes_of-words_of (a ∷ b ∷ rest) (ha, (hb, hs)) e =
    ground (arith, bytes_of-words_of rest hs (omega arith))

pub convert_to-convert_from :
    (type : DataType) (bytes : List ℕ)
    → All IsByte bytes
    → IsSized type bytes
    → let ws = convert_from_register_value (record { type = type; bytes = bytes }) in
      convert_to_register_value ws (length ws) type
      ≡ record { type = type_after type; bytes = bytes }
unfolding convert_from_register_value convert_to_register_value set_bool set_uint8 set_int8
    set_uint16 set_int16 set_uint32 set_int32 set_uint64 set_int64 set_float32 set_float64 get_bool
    get_uint8 get_uint16 get_uint32 get_uint64
convert_to-convert_from bool [] h t = absurd (ground arith)
convert_to-convert_from bool (b ∷ bs) h t = ground arith
convert_to-convert_from uint8 (a ∷ []) h t = ground arith
convert_to-convert_from uint8 _ h t = absurd (omega arith)
convert_to-convert_from int8 (a ∷ []) h t = ground arith
convert_to-convert_from int8 _ h t = absurd (omega arith)
convert_to-convert_from uint16 (a ∷ b ∷ []) h t = ground arith
convert_to-convert_from uint16 _ h t = absurd (omega arith)
convert_to-convert_from int16 (a ∷ b ∷ []) h t = ground arith
convert_to-convert_from int16 _ h t = absurd (omega arith)
convert_to-convert_from uint32 (a ∷ b ∷ c ∷ d ∷ []) h t = ground arith
convert_to-convert_from uint32 _ h t = absurd (omega arith)
convert_to-convert_from int32 (a ∷ b ∷ c ∷ d ∷ []) h t = ground arith
convert_to-convert_from int32 _ h t = absurd (omega arith)
convert_to-convert_from float32 (a ∷ b ∷ c ∷ d ∷ []) h t = ground arith
convert_to-convert_from float32 _ h t = absurd (omega arith)
convert_to-convert_from uint64 (a ∷ b ∷ c ∷ d ∷ e ∷ f ∷ g ∷ i ∷ []) h t = ground arith
convert_to-convert_from uint64 _ h t = absurd (omega arith)
convert_to-convert_from int64 (a ∷ b ∷ c ∷ d ∷ e ∷ f ∷ g ∷ i ∷ []) h t = ground arith
convert_to-convert_from int64 _ h t = absurd (omega arith)
convert_to-convert_from float64 (a ∷ b ∷ c ∷ d ∷ e ∷ f ∷ g ∷ i ∷ []) h t = ground arith
convert_to-convert_from float64 _ h t = absurd (omega arith)
convert_to-convert_from string bytes h t = rw (take-length, bytes_of-words_of bytes h t)
convert_to-convert_from _ bytes h t = rw (take-length, bytes_of-words_of bytes h t)
