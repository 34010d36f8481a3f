-- ===== src/Modbus/Validate.antt =====
-- The validation of addresses and values, and `parityToModbusChar`.
use ocpp_gw.Base.{
  ℕ, ◌*◌, ◌≤◌, ◌≡◌, ◌↔◌, ℤ, pos, negsuc, String, Bool, true, false, not, ◌||◌, Option, some, ltb,
  ◌==◌, str_eq, if◌then◌else◌, length, is_empty, arith,
}
use ocpp_gw.Device.Types.{
  RegisterType, coil, discrete_input, input_register, holding_register, DeviceAddress,
  modbus_rtu_address, DeviceInfo, RegisterAddress, RegisterValue,
}

-- Limits of the Modbus specification, which modbus.h defines.
abbrev pub max_read_bits : ℕ
max_read_bits = 2000

abbrev pub max_read_registers : ℕ
max_read_registers = 125

unfoldable pub parity_to_modbus_char : String → String
parity_to_modbus_char parity =
    if str_eq parity "N" || str_eq parity "n"
    then "N"
    else if str_eq parity "E" || str_eq parity "e"
    then "E"
    else if str_eq parity "O" || str_eq parity "o"
    then "O"
    else "N"

abbrev is_bit : RegisterType → Bool
is_bit coil = true
is_bit discrete_input = true
is_bit _ = false

abbrev is_modbus : RegisterType → Bool
is_modbus coil = true
is_modbus discrete_input = true
is_modbus input_register = true
is_modbus holding_register = true
is_modbus _ = false

unfoldable pub validate_register_address : RegisterAddress → Bool
validate_register_address a =
    if not (is_modbus a.type)
    then false
    else if ltb 65535 a.address
    then false
    else if ltb a.count 1
    then false
    else if is_bit a.type
    then (if ltb max_read_bits a.count then false else true)
    else (if ltb max_read_registers a.count then false else true)

abbrev valid_unit : ℤ → Bool
valid_unit (negsuc n) = false
valid_unit (pos n) = if ltb n 1 || ltb 247 n then false else true

abbrev valid_rtu : Option DeviceAddress → Bool
valid_rtu (some (modbus_rtu_address port baud data' stop parity unit)) =
    if str_eq port "" then false else valid_unit unit
valid_rtu _ = false

unfoldable pub validate_device_address : DeviceInfo → Bool
validate_device_address d = valid_rtu d.address

abbrev valid_value : RegisterType → ℕ → ℕ → Bool
valid_value coil size count = if not (size == 1) then false else true
valid_value holding_register size count = if ltb size 2 || ltb (count * 2) size then false else true
valid_value _ size count = true

unfoldable pub validate_register_value : RegisterAddress → RegisterValue → Bool
validate_register_value a v =
    if is_empty v.bytes then false else valid_value a.type (length v.bytes) a.count

-- The largest count that a register type allows in one request.
abbrev limit : RegisterType → ℕ
limit coil = 2000
limit discrete_input = 2000
limit input_register = 125
limit holding_register = 125
limit _ = 0

-- An address is accepted exactly when it is a 16-bit number and asks for at least one register and at most
-- as many as one request for its type can carry; no other type than the four of Modbus is accepted.
pub validate_register_address_iff :
    (a : RegisterAddress)
    → (validate_register_address a ≡ true)
      ↔ ((a.address ≤ 65535) × (1 ≤ a.count) × (a.count ≤ limit a.type))
unfolding validate_register_address
validate_register_address_iff a = ground arith
