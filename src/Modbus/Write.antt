-- ===== src/Modbus/Write.antt =====
-- Writing coils and holding registers.
use ocpp_gw.Base.{
  ℕ, zero, suc, ℤ, pos, String, not, Option, none, some, List, [], ◌∷◌, map, ◌==◌, if◌then◌else◌,
  take,
}
use Prim.Native.String.{◌++◌ as str_append}
use ocpp_gw.Device.Types.{
  RegisterType, coil, discrete_input, input_register, holding_register, RegisterAddress,
  RegisterValue, WriteResult, create_error_write_result, create_success_write_result,
}
use ocpp_gw.Device.Value.{get_bool, get_uint16}
use ocpp_gw.Modbus.Convert.{convert_from_register_value}
use ocpp_gw.Modbus.Validate.{validate_register_address, validate_register_value}

-- A call of libmodbus: the address, and the bit, bits, word or words.
pub data Request : Type 0 where
  write_bit : ℕ → ℕ → Request
  write_bits : ℕ → List ℕ → Request
  write_register_word : ℕ → ℕ → Request
  write_registers : ℕ → List ℕ → Request

abbrev bit_of : ℕ → ℕ
bit_of b = if b == 0 then 0 else 1

-- `n` bits, the missing ones 0.
unfoldable pub bits_of : ℕ → List ℕ → List ℕ
bits_of zero bytes = []
bits_of (suc n) [] = 0 ∷ bits_of n []
bits_of (suc n) (b ∷ bytes) = bit_of b ∷ bits_of n bytes

unfoldable pub coil_request : RegisterAddress → RegisterValue → Request
coil_request a v =
    if a.count == 1
    then write_bit a.address (if get_bool v then 1 else 0)
    else write_bits a.address (bits_of a.count v.bytes)

-- At most `count` words.
unfoldable pub register_request : RegisterAddress → RegisterValue → Request
register_request a v =
    if a.count == 1
    then write_register_word a.address (get_uint16 v)
    else write_registers a.address (take a.count (convert_from_register_value v))

-- The line to one unit: the `errno` of a write that fails, and `modbus_strerror`.
pub record WriteLine : Type 0 where
  pub write : Request → Option ℤ
  pub strerror : ℤ → String

unfoldable pub handle_modbus_write_error : WriteLine → String → ℤ → WriteResult
handle_modbus_write_error line operation code =
    create_error_write_result
      (str_append "Failed to " (str_append operation (str_append ": " (line.strerror code)))) code

abbrev finish : WriteLine → String → Option ℤ → WriteResult
finish line operation none = create_success_write_result
finish line operation (some code) = handle_modbus_write_error line operation code

unfoldable pub write_coil : WriteLine → RegisterAddress → RegisterValue → WriteResult
write_coil line a v = finish line "write coil" (line.write (coil_request a v))

unfoldable pub write_holding_register : WriteLine → RegisterAddress → RegisterValue → WriteResult
write_holding_register line a v =
    finish line "write holding register" (line.write (register_request a v))

abbrev refused : String → WriteResult
refused message = create_error_write_result message (pos 0)

-- The switch of `writeRegister` and `writeMultipleRegisters`.
abbrev pub write_by : RegisterType → WriteLine → RegisterAddress → RegisterValue → WriteResult
write_by coil line a v = write_coil line a v
write_by holding_register line a v = write_holding_register line a v
write_by discrete_input line a v = refused "Cannot write to read-only register type"
write_by input_register line a v = refused "Cannot write to read-only register type"
write_by _ line a v = refused "Unsupported register type"

-- The checks of an address and a value, and the write.
abbrev checked :
    (String → WriteResult) → WriteLine → RegisterAddress → RegisterValue → WriteResult → WriteResult
checked refuse line a v result =
    if not (validate_register_address a)
    then refuse "Invalid register address for Modbus RTU"
    else if not (validate_register_value a v)
    then refuse "Invalid register value for Modbus RTU"
    else result

-- `not_running` and `blocked` as for a read.
unfoldable pub write_register :
    Option String → Option String → WriteLine → RegisterAddress → RegisterValue → WriteResult
write_register (some message) blocked line a v = refused message
write_register none blocked line a v =
    checked refused line a v
      (elim blocked [ none ↦ write_by a.type line a v | some message ↦ refused message ])

unfoldable pub write_multiple_registers :
    Option String
    → WriteLine
    → List (RegisterAddress × RegisterValue)
    → List (RegisterAddress × WriteResult)
write_multiple_registers (some message) line vs = map (λ p. (p.0, refused message)) vs
write_multiple_registers none line vs =
    map (λ p. (p.0, checked refused line p.0 p.1 (write_by p.0.type line p.0 p.1))) vs
