-- ===== src/Config/Types.antt =====
-- The enumerations, structs and their `validate` members of config_types.h and device_config.h.
use ocpp_gw.Base.{
  ℕ, ℤ, pos, negsuc, is_negative, int_eq, String, Bool, true, false, not, ◌&&◌, ◌||◌, Option, none,
  some, ltb, str_eq, if◌then◌else◌,
}

pub data ProtocolType : Type 0 where
  modbus_tcp modbus_rtu echonet_lite unknown : ProtocolType

unfoldable pub protocol_from_string : String → ProtocolType
protocol_from_string s =
    if str_eq s "modbus_tcp"
    then modbus_tcp
    else if str_eq s "modbus_rtu"
    then modbus_rtu
    else if str_eq s "echonet_lite"
    then echonet_lite
    else unknown

unfoldable pub protocol_to_string : ProtocolType → String
protocol_to_string modbus_tcp = "modbus_tcp"
protocol_to_string modbus_rtu = "modbus_rtu"
protocol_to_string echonet_lite = "echonet_lite"
protocol_to_string unknown = "unknown"

pub record ModbusTcpConnectionConfig : Type 0 where
  pub ip : String
  pub port : ℤ
  pub unit_id : ℤ

pub record ModbusRtuConnectionConfig : Type 0 where
  pub port : String
  pub baud_rate : ℤ
  pub data_bits : ℤ
  pub stop_bits : ℤ
  pub parity : String
  pub unit_id : ℤ

pub record EchonetLiteConnectionConfig : Type 0 where
  pub ip : String

pub data ConnectionConfig : Type 0 where
  tcp : ModbusTcpConnectionConfig → ConnectionConfig
  rtu : ModbusRtuConnectionConfig → ConnectionConfig
  echonet : EchonetLiteConnectionConfig → ConnectionConfig

abbrev pub default_tcp : ModbusTcpConnectionConfig
default_tcp = record { ip = ""; port = pos 502; unit_id = pos 1 }

abbrev pub default_rtu : ModbusRtuConnectionConfig
default_rtu = record {
  port = "";
  baud_rate = pos 9600;
  data_bits = pos 8;
  stop_bits = pos 1;
  parity = "none";
  unit_id = pos 1;
}

abbrev pub default_echonet : EchonetLiteConnectionConfig
default_echonet = record { ip = "" }

pub record DeviceConfig : Type 0 where
  pub id : String
  pub template_id : String
  pub protocol : ProtocolType
  pub connection : ConnectionConfig
  pub ocpp_id : String

-- The default constructor.
abbrev pub default_device : DeviceConfig
default_device = record {
  id = "";
  template_id = "";
  protocol = unknown;
  connection = tcp default_tcp;
  ocpp_id = "";
}

-- What a `ConfigValidationError` says.
pub data ConfigError : Type 0 where
  ip_empty port_out_of_range unit_id_out_of_range port_empty baud_rate_not_positive : ConfigError
  wrong_data_bits wrong_stop_bits wrong_parity : ConfigError
  id_empty template_id_empty protocol_unknown ocpp_id_empty unexpected : ConfigError

abbrev above : ℕ → ℤ → Bool
above k (pos n) = ltb k n
above k (negsuc n) = false

-- `n <= 0`
abbrev not_positive : ℤ → Bool
not_positive n = not (above 0 n)

-- `none` is the return of `true`.
unfoldable pub validate_tcp : ModbusTcpConnectionConfig → Option ConfigError
validate_tcp c =
    if str_eq c.ip ""
    then some ip_empty
    else if not_positive c.port || above 65535 c.port
    then some port_out_of_range
    else if is_negative c.unit_id || above 247 c.unit_id
    then some unit_id_out_of_range
    else none

unfoldable pub validate_rtu : ModbusRtuConnectionConfig → Option ConfigError
validate_rtu c =
    if str_eq c.port ""
    then some port_empty
    else if not_positive c.baud_rate
    then some baud_rate_not_positive
    else if not (int_eq c.data_bits (pos 7)) && not (int_eq c.data_bits (pos 8))
    then some wrong_data_bits
    else if not (int_eq c.stop_bits (pos 1)) && not (int_eq c.stop_bits (pos 2))
    then some wrong_stop_bits
    else if not (str_eq c.parity "none")
        && not (str_eq c.parity "even")
        && not (str_eq c.parity "odd")
    then some wrong_parity
    else if is_negative c.unit_id || above 247 c.unit_id
    then some unit_id_out_of_range
    else none

unfoldable pub validate_echonet : EchonetLiteConnectionConfig → Option ConfigError
validate_echonet c = if str_eq c.ip "" then some ip_empty else none

-- The `switch` on the protocol; a `std::get` of another alternative throws, which is reported as unexpected.
unfoldable pub validate_connection : ProtocolType → ConnectionConfig → Option ConfigError
validate_connection modbus_tcp (tcp c) = validate_tcp c
validate_connection modbus_rtu (rtu c) = validate_rtu c
validate_connection echonet_lite (echonet c) = validate_echonet c
validate_connection unknown c = some protocol_unknown
validate_connection _ c = some unexpected

abbrev is_unknown : ProtocolType → Bool
is_unknown unknown = true
is_unknown _ = false

unfoldable pub validate : DeviceConfig → Option ConfigError
validate d =
    if str_eq d.id ""
    then some id_empty
    else if str_eq d.template_id ""
    then some template_id_empty
    else if is_unknown d.protocol
    then some protocol_unknown
    else if str_eq d.ocpp_id ""
    then some ocpp_id_empty
    else validate_connection d.protocol d.connection
