-- ===== src/Modbus/Read.antt =====
-- Reading registers: one at a time, and in the blocks that `groupRegisters` makes.
use ocpp_gw.Base.{
  ℕ, ◌-◌, ℤ, pos, String, not, Option, none, some, List, [], ◌∷◌, ◌++◌, map, ◌==◌, if◌then◌else◌,
  get_or, drop,
}
use Prim.Native.String.{◌++◌ as str_append}
use ocpp_gw.Device.Types.{
  RegisterType, coil, discrete_input, input_register, holding_register, DataType, uint16, uint32,
  uint64, RegisterAddress, ReadResult, create_error_read_result, create_success_read_result,
}
use ocpp_gw.Device.Value.{set_bool}
use ocpp_gw.Modbus.Convert.{convert_to_register_value}
use ocpp_gw.Modbus.Validate.{validate_register_address}
use ocpp_gw.Modbus.Group.{RegisterGroup, Sorter, group_registers}

-- What a read of libmodbus gives: its `errno`, or the words (or bits) read.
pub data Answer : Type 0 where
  fails : ℤ → Answer
  words : List ℕ → Answer

-- The line to one unit: the read of `n` registers of a type from an address on, and `modbus_strerror`.
pub record Line : Type 0 where
  pub read : RegisterType → ℕ → ℕ → Answer
  pub strerror : ℤ → String

unfoldable pub handle_modbus_error : Line → String → ℤ → ReadResult
handle_modbus_error line operation code =
    create_error_read_result
      (str_append "Failed to " (str_append operation (str_append ": " (line.strerror code)))) code

abbrev pub data_type_of : ℕ → DataType
data_type_of count = if count == 2 then uint32 else if count == 4 then uint64 else uint16

-- The value of one address, from its words on.
abbrev pub bit_value : List ℕ → ReadResult
bit_value ws = create_success_read_result (set_bool (not (get_or ws 0 0 == 0)))

abbrev pub register_value : RegisterAddress → List ℕ → ReadResult
register_value a ws =
    create_success_read_result (convert_to_register_value ws a.count (data_type_of a.count))

abbrev finish : Line → String → (List ℕ → ReadResult) → Answer → ReadResult
finish line operation value (fails code) = handle_modbus_error line operation code
finish line operation value (words ws) = value ws

unfoldable pub read_coil : Line → RegisterAddress → ReadResult
read_coil line a = finish line "read coil" bit_value (line.read coil a.address 1)

unfoldable pub read_discrete_input : Line → RegisterAddress → ReadResult
read_discrete_input line a =
    finish line "read discrete input" bit_value (line.read discrete_input a.address 1)

unfoldable pub read_input_register : Line → RegisterAddress → ReadResult
read_input_register line a =
    finish line "read input register" (register_value a)
      (line.read input_register a.address a.count)

unfoldable pub read_holding_register : Line → RegisterAddress → ReadResult
read_holding_register line a =
    finish line "read holding register" (register_value a)
      (line.read holding_register a.address a.count)

abbrev pub unsupported : ReadResult
unsupported = create_error_read_result "Unsupported register type" (pos 0)

-- The switch at the end of `readRegister`.
abbrev pub read_by : RegisterType → Line → RegisterAddress → ReadResult
read_by coil line a = read_coil line a
read_by discrete_input line a = read_discrete_input line a
read_by input_register line a = read_input_register line a
read_by holding_register line a = read_holding_register line a
read_by _ line a = unsupported

abbrev invalid : ReadResult
invalid = create_error_read_result "Invalid register address for Modbus RTU" (pos 0)

abbrev pub refused : String → ReadResult
refused message = create_error_read_result message (pos 0)

-- `not_running` and `blocked` are the messages of the checks before and after that of the address: whether
-- the adapter runs; the device, its state, the connection, the unit.
unfoldable pub read_register : Option String → Option String → Line → RegisterAddress → ReadResult
read_register (some message) blocked line a = refused message
read_register none blocked line a =
    if not (validate_register_address a)
    then invalid
    else elim blocked [ none ↦ read_by a.type line a | some message ↦ refused message ]

-- An entry of the map of results.
abbrev pub Entry : Type 0
Entry = RegisterAddress × ReadResult

-- The part of a block from an address on.
abbrev pub cut : RegisterGroup → RegisterAddress → List ℕ → List ℕ
cut g a ws = drop (a.address - g.start_address) ws

unfoldable pub group_result :
    RegisterType → Line → RegisterGroup → Answer → RegisterAddress → ReadResult
group_result coil line g answer a = finish line "read coils" (λ ws. bit_value (cut g a ws)) answer
group_result discrete_input line g answer a =
    finish line "read discrete inputs" (λ ws. bit_value (cut g a ws)) answer
group_result input_register line g answer a =
    finish line "read input registers" (λ ws. register_value a (cut g a ws)) answer
group_result holding_register line g answer a =
    finish line "read holding registers" (λ ws. register_value a (cut g a ws)) answer
group_result _ line g answer a = unsupported

-- One read for the group, and its entries.
unfoldable pub read_group : Line → RegisterGroup → List Entry
read_group line g =
    map (λ a. (a, group_result g.type line g (line.read g.type g.start_address g.count) a))
      g.addresses

unfoldable pub read_groups : Line → List RegisterGroup → List Entry
read_groups line [] = []
read_groups line (g ∷ gs) = read_group line g ++ read_groups line gs

-- The addresses that are valid, and the entries of the others.
unfoldable pub valid_addresses : List RegisterAddress → List RegisterAddress
valid_addresses [] = []
valid_addresses (a ∷ as') =
    let rest = valid_addresses as' in if validate_register_address a then a ∷ rest else rest

unfoldable pub invalid_entries : List RegisterAddress → List Entry
invalid_entries [] = []
invalid_entries (a ∷ as') =
    let rest = invalid_entries as' in
    if validate_register_address a then rest else (a, invalid) ∷ rest

-- The assignments to the map of results, in order: of two for one address, the map keeps the later. The
-- argument `some message` stands for a check before the reads that fails.
unfoldable pub read_multiple_registers :
    Sorter → Option String → Line → List RegisterAddress → List Entry
read_multiple_registers s (some message) line as' = map (λ a. (a, refused message)) as'
read_multiple_registers s none line as' =
    invalid_entries as' ++ read_groups line (group_registers s (valid_addresses as'))
