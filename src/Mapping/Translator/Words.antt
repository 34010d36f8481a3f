-- ===== src/Mapping/Translator/Words.antt =====
-- Integers written as bytes and read again, and the numbers of an enumeration.
use ocpp_gw.Base.{ℕ, ◌*◌, ◌^◌, ◌<◌, ℤ, pos, negsuc, String, ◌≡◌, refl, some, List, arith}
use ocpp_gw.Mapping.Translator.{ok}
use ocpp_gw.Mapping.Translator.Values.{
  pattern_of, signed, word_of, double_word_of, four_bytes, half, find_enum, find_key,
  map_enum_to_string, map_enum_to_int,
}

-- An integer that fits a width, unsigned and signed.
abbrev pub FitsUnsigned : ℕ → ℤ → Type 0
FitsUnsigned w (pos k) = k < 2 ^ w
FitsUnsigned w (negsuc k) = ⊥

abbrev pub FitsSigned : ℕ → ℤ → Type 0
FitsSigned w (pos k) = 2 * k < 2 ^ w
FitsSigned w (negsuc k) = 2 * k < 2 ^ w

pub word_of-half : (k : ℤ) → FitsUnsigned 16 k → pos (word_of (half k)) ≡ k
word_of-half (pos k) h = ground arith
word_of-half (negsuc k) h = absurd h

pub signed-half : (k : ℤ) → FitsSigned 16 k → signed 16 (word_of (half k)) ≡ k
signed-half (pos k) h = ground arith
signed-half (negsuc k) h = ground arith

pub double_word_of-four_bytes : (p : ℕ) → p < 2 ^ 32 → double_word_of (four_bytes p) ≡ p
double_word_of-four_bytes p h = omega arith

pub pattern_of-lt : (k : ℤ) → pattern_of 32 k < 2 ^ 32
pattern_of-lt (pos k) = omega arith
pattern_of-lt (negsuc k) = omega arith

pub unsigned_pattern : (k : ℤ) → FitsUnsigned 32 k → pos (pattern_of 32 k) ≡ k
unsigned_pattern (pos k) h = ground arith
unsigned_pattern (negsuc k) h = absurd h

pub signed_pattern : (k : ℤ) → FitsSigned 32 k → signed 32 (pattern_of 32 k) ≡ k
signed_pattern (pos k) h = ground arith
signed_pattern (negsuc k) h = ground arith

pub unsigned_byte : (k : ℤ) → FitsUnsigned 8 k → pos (pattern_of 8 k) ≡ k
unsigned_byte (pos k) h = ground arith
unsigned_byte (negsuc k) h = absurd h

pub signed_byte : (k : ℤ) → FitsSigned 8 k → signed 8 (pattern_of 8 k) ≡ k
signed_byte (pos k) h = ground arith
signed_byte (negsuc k) h = ground arith

pub key_of :
    (s : String) (k : ℤ) (m : List (ℤ × String))
    → find_key s m ≡ some k
    → map_enum_to_int m s ≡ ok k
unfolding map_enum_to_int
key_of s k m h = rw (map_enum_to_int, h) refl

pub text_at :
    (s : String) (k : ℤ) (m : List (ℤ × String))
    → find_enum k m ≡ some s
    → map_enum_to_string m k ≡ ok s
unfolding map_enum_to_string
text_at s k m h = rw (map_enum_to_string, h) refl
