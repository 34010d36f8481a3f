-- ===== src/Device/Types.antt =====
-- The enumerations and structs of device_adapter.h.
use ocpp_gw.Base.{ℕ, ℤ, pos, String, Bool, true, false, Option, List, []}

pub data DeviceProtocol : Type 0 where
  echonet_lite modbus_rtu modbus_tcp unknown : DeviceProtocol

pub data RegisterType : Type 0 where
  coil discrete_input input_register holding_register epc unknown : RegisterType

pub data DataType : Type 0 where
  bool uint8 int8 uint16 int16 uint32 int32 uint64 int64 : DataType
  float32 float64 string binary unknown : DataType

-- The classes derived from `DeviceAddress`, with their fields.
pub data DeviceAddress : Type 0 where
  echonet_lite_address : (ip_address : String) (port : ℕ) → DeviceAddress
  modbus_rtu_address :
      (port : String) (baud_rate data_bits stop_bits : ℤ) (parity : String) (unit_id : ℤ)
      → DeviceAddress
  modbus_tcp_address : (ip_address : String) (port : ℕ) (unit_id : ℤ) → DeviceAddress

-- `address` is `none` for a null pointer, and `last_seen` a count of clock ticks.
pub record DeviceInfo : Type 0 where
  pub id : String
  pub name : String
  pub model : String
  pub manufacturer : String
  pub firmware_version : String
  pub protocol : DeviceProtocol
  pub address : Option DeviceAddress
  pub template_id : String
  pub online : Bool
  pub last_seen : ℕ

pub record RegisterValue : Type 0 where
  pub type : DataType
  pub bytes : List ℕ

pub record RegisterAddress : Type 0 where
  pub type : RegisterType
  pub address : ℕ
  pub eoj_class_group_code : ℕ
  pub eoj_class_code : ℕ
  pub eoj_instance_code : ℕ
  pub epc : ℕ
  pub count : ℕ

pub record ReadResult : Type 0 where
  pub success : Bool
  pub value : RegisterValue
  pub error_message : String
  pub error_code : ℤ

pub record WriteResult : Type 0 where
  pub success : Bool
  pub error_message : String
  pub error_code : ℤ

abbrev pub no_value : RegisterValue
no_value = record { type = DataType.unknown; bytes = [] }

unfoldable pub create_error_read_result : String → ℤ → ReadResult
create_error_read_result message code = record {
  success = false;
  value = no_value;
  error_message = message;
  error_code = code;
}

unfoldable pub create_success_read_result : RegisterValue → ReadResult
create_success_read_result value = record {
  success = true;
  value = value;
  error_message = "";
  error_code = pos 0;
}

unfoldable pub create_error_write_result : String → ℤ → WriteResult
create_error_write_result message code = record {
  success = false;
  error_message = message;
  error_code = code;
}

unfoldable pub create_success_write_result : WriteResult
create_success_write_result = record { success = true; error_message = ""; error_code = pos 0 }
