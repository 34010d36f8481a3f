-- ===== src/Echonet/Registers.antt =====
-- `readRegister` and `writeRegister` of the ECHONET Lite adapter: the checks, the request with its
-- transaction identifier, and what is made of the answer.
use ocpp_gw.Base.{
  ℕ, pos, String, Bool, true, false, not, ◌&&◌, Option, none, some, List, [], ◌∷◌, is_empty, ◌==◌,
  if◌then◌else◌,
}
use ocpp_gw.Device.Types.{
  RegisterType, epc, binary, RegisterAddress, RegisterValue, ReadResult, WriteResult,
  create_error_read_result, create_success_read_result, create_error_write_result,
  create_success_write_result,
}
use ocpp_gw.Device.Adapter.{Adapter, get_device_info}
use ocpp_gw.Echonet.Frame.{
  Property, Frame, esv_get_response, esv_get_sna, esv_set_response, esv_set_sna,
  create_get_property_frame, create_set_property_frame,
}
use ocpp_gw.Echonet.Exchange.{get_next_tid, Response, Exchange, Network, send_request_with_response}

-- The adapter with the counter of identifiers and the pending requests.
pub record Station : Type 0 where
  pub adapter : Adapter
  pub next_tid : ℕ
  pub exchange : Exchange

abbrev is_epc : RegisterType → Bool
is_epc epc = true
is_epc _ = false

unfoldable pub validate_register_address : RegisterAddress → Bool
validate_register_address a =
    if not (is_epc a.type)
    then false
    else if (a.eoj_class_group_code == 0) && (a.eoj_class_code == 0)
    then false
    else true

unfoldable pub validate_register_value : RegisterValue → Bool
validate_register_value v = if is_empty v.bytes then false else true

abbrev pub read_error : String → ReadResult
read_error message = create_error_read_result message (pos 0)

abbrev pub write_error : String → WriteResult
write_error message = create_error_write_result message (pos 0)

-- The first property of that code.
unfoldable pub find_property : ℕ → List Property → Option Property
find_property code [] = none
find_property code (p ∷ ps) =
    let later = find_property code ps in if p.epc == code then some p else later

unfoldable pub read_answer : ℕ → Option Response → ReadResult
read_answer code none = read_error "No response from device"
read_answer code (some r) =
    if not r.success
    then read_error r.error_message
    else if not (r.frame.esv == esv_get_response) && not (r.frame.esv == esv_get_sna)
    then read_error "Unexpected response type"
    else if is_empty r.frame.properties
    then read_error "No properties in response"
    else elim (find_property code r.frame.properties) [
      | none ↦ read_error "Property not found in response"
      | some p ↦
          if r.frame.esv == esv_get_sna
          then read_error "Device reported property read not possible"
          else create_success_read_result (record { type = binary; bytes = p.edt })
    ]

unfoldable pub write_answer : ℕ → Option Response → WriteResult
write_answer code none = write_error "No response from device"
write_answer code (some r) =
    if not r.success
    then write_error r.error_message
    else if not (r.frame.esv == esv_set_response) && not (r.frame.esv == esv_set_sna)
    then write_error "Unexpected response type"
    else if is_empty r.frame.properties
    then write_error "No properties in response"
    else elim (find_property code r.frame.properties) [
      | none ↦ write_error "Property not found in response"
      | some p ↦
          if r.frame.esv == esv_set_sna
          then write_error "Device reported property write not possible"
          else create_success_write_result
    ]

-- The checks on the device; `none` is a device that can be asked.
unfoldable pub check_device : String → Adapter → Option String
check_device id a = elim (get_device_info id a) [
  | none ↦ some "Device not found"
  | some d ↦ if not d.online then some "Device is offline" else none
]

unfoldable pub check_read : String → RegisterAddress → Adapter → Option String
check_read id address a =
    if not a.running
    then some "ECHONET Lite adapter not running"
    else if not (validate_register_address address)
    then some "Invalid register address for ECHONET Lite"
    else check_device id a

unfoldable pub check_write : String → RegisterAddress → RegisterValue → Adapter → Option String
check_write id address value a =
    if not a.running
    then some "ECHONET Lite adapter not running"
    else if not (validate_register_address address)
    then some "Invalid register address for ECHONET Lite"
    else if not (validate_register_value value)
    then some "Invalid register value for ECHONET Lite"
    else check_device id a

-- The request under a new identifier, and the answer to it; `none` is the end of the process.
unfoldable pub ask : ℕ → Network → Frame → Station → Option (Station × Option Response)
ask promise w f s =
    let (tid, next_tid) = get_next_tid s.next_tid in
    elim (send_request_with_response promise (record f { tid = tid }) w s.exchange) [
      | none ↦ none
      | some (exchange, r) ↦ some (record s { next_tid = next_tid; exchange = exchange }, r)
    ]

unfoldable pub read_register :
    ℕ → Network → String → RegisterAddress → Station → Option (Station × ReadResult)
read_register promise w id address s = elim (check_read id address s.adapter) [
  | some message ↦ some (s, read_error message)
  | none ↦
      elim (ask promise w
        (create_get_property_frame address.eoj_class_group_code address.eoj_class_code
          address.eoj_instance_code (address.epc ∷ []))
        s) [ none ↦ none | some (s', r) ↦ some (s', read_answer address.epc r) ]
]

unfoldable pub write_register :
    ℕ
    → Network
    → String
    → RegisterAddress
    → RegisterValue
    → Station
    → Option (Station × WriteResult)
write_register promise w id address value s = elim (check_write id address value s.adapter) [
  | some message ↦ some (s, write_error message)
  | none ↦
      elim (ask promise w
        (create_set_property_frame address.eoj_class_group_code address.eoj_class_code
          address.eoj_instance_code address.epc value.bytes)
        s) [ none ↦ none | some (s', r) ↦ some (s', write_answer address.epc r) ]
]
