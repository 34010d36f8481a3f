-- ===== src/Device/Bytes.antt =====
-- The getters undo the setters, and the setters the getters.
use ocpp_gw.Base.{ℕ, ◌^◌, ◌<◌, ◌≡◌, arith}
use ocpp_gw.Device.Value.{get_uint16, get_uint32, get_uint64, set_uint16, set_uint32, set_uint64}

abbrev pub IsByte : ℕ → Type 0
IsByte b = b < 256

-- The pattern of a value, by the getter for its size.
get_uint16-set_uint16 : (n : ℕ) → n < 2 ^ 16 → get_uint16 (set_uint16 n) ≡ n
unfolding get_uint16 set_uint16
get_uint16-set_uint16 n h = omega arith

get_uint32-set_uint32 : (n : ℕ) → n < 2 ^ 32 → get_uint32 (set_uint32 n) ≡ n
unfolding get_uint32 set_uint32
get_uint32-set_uint32 n h = omega arith

-- A 64-bit number written into a register value is read back.
pub get_uint64-set_uint64 : (n : ℕ) → n < 2 ^ 64 → get_uint64 (set_uint64 n) ≡ n
unfolding get_uint64 set_uint64
get_uint64-set_uint64 n h = omega arith
