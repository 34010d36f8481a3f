-- ===== src/Ocpp/Message.antt =====
-- `MessageType`, `OcppMessageAction` with its strings, and `OcppMessage` with its factories.
use ocpp_gw.Base.{ℕ, ℤ, pos, String, ◌≡◌, refl, Bool, [], str_eq, if◌then◌else◌, ◌==◌}
use ocpp_gw.Base.Dict.{Dict, insert}
use ocpp_gw.Ocpp.Json.{JsonLib}

pub data MessageType : Type 0 where
  call call_result call_error : MessageType

-- The value of the enumerator.
abbrev pub type_number : MessageType → ℤ
type_number call = pos 2
type_number call_result = pos 3
type_number call_error = pos 4

pub data OcppMessageAction : Type 0 where
  authorize boot_notification cancel_reservation change_availability clear_cache : OcppMessageAction
  clear_charging_profile data_transfer get_composite_schedule get_configuration : OcppMessageAction
  get_diagnostics get_local_list_version heartbeat meter_values : OcppMessageAction
  remote_start_transaction remote_stop_transaction reset send_local_list : OcppMessageAction
  set_charging_profile status_notification transaction_event trigger_message : OcppMessageAction
  unlock_connector update_firmware unknown : OcppMessageAction

unfoldable pub action_to_string : OcppMessageAction → String
action_to_string authorize = "Authorize"
action_to_string boot_notification = "BootNotification"
action_to_string cancel_reservation = "CancelReservation"
action_to_string change_availability = "ChangeAvailability"
action_to_string clear_cache = "ClearCache"
action_to_string clear_charging_profile = "ClearChargingProfile"
action_to_string data_transfer = "DataTransfer"
action_to_string get_composite_schedule = "GetCompositeSchedule"
action_to_string get_configuration = "GetConfiguration"
action_to_string get_diagnostics = "GetDiagnostics"
action_to_string get_local_list_version = "GetLocalListVersion"
action_to_string heartbeat = "Heartbeat"
action_to_string meter_values = "MeterValues"
action_to_string remote_start_transaction = "RemoteStartTransaction"
action_to_string remote_stop_transaction = "RemoteStopTransaction"
action_to_string reset = "Reset"
action_to_string send_local_list = "SendLocalList"
action_to_string set_charging_profile = "SetChargingProfile"
action_to_string status_notification = "StatusNotification"
action_to_string transaction_event = "TransactionEvent"
action_to_string trigger_message = "TriggerMessage"
action_to_string unlock_connector = "UnlockConnector"
action_to_string update_firmware = "UpdateFirmware"
action_to_string unknown = "Unknown"

-- The look-up in the table of names.
unfoldable pub string_to_action : String → OcppMessageAction
string_to_action s =
    if str_eq s "Authorize"
    then authorize
    else if str_eq s "BootNotification"
    then boot_notification
    else if str_eq s "CancelReservation"
    then cancel_reservation
    else if str_eq s "ChangeAvailability"
    then change_availability
    else if str_eq s "ClearCache"
    then clear_cache
    else if str_eq s "ClearChargingProfile"
    then clear_charging_profile
    else if str_eq s "DataTransfer"
    then data_transfer
    else if str_eq s "GetCompositeSchedule"
    then get_composite_schedule
    else if str_eq s "GetConfiguration"
    then get_configuration
    else if str_eq s "GetDiagnostics"
    then get_diagnostics
    else if str_eq s "GetLocalListVersion"
    then get_local_list_version
    else if str_eq s "Heartbeat"
    then heartbeat
    else if str_eq s "MeterValues"
    then meter_values
    else if str_eq s "RemoteStartTransaction"
    then remote_start_transaction
    else if str_eq s "RemoteStopTransaction"
    then remote_stop_transaction
    else if str_eq s "Reset"
    then reset
    else if str_eq s "SendLocalList"
    then send_local_list
    else if str_eq s "SetChargingProfile"
    then set_charging_profile
    else if str_eq s "StatusNotification"
    then status_notification
    else if str_eq s "TransactionEvent"
    then transaction_event
    else if str_eq s "TriggerMessage"
    then trigger_message
    else if str_eq s "UnlockConnector"
    then unlock_connector
    else if str_eq s "UpdateFirmware"
    then update_firmware
    else unknown

-- The value of the enumerator.
abbrev pub code : OcppMessageAction → ℕ
code authorize = 0
code boot_notification = 1
code cancel_reservation = 2
code change_availability = 3
code clear_cache = 4
code clear_charging_profile = 5
code data_transfer = 6
code get_composite_schedule = 7
code get_configuration = 8
code get_diagnostics = 9
code get_local_list_version = 10
code heartbeat = 11
code meter_values = 12
code remote_start_transaction = 13
code remote_stop_transaction = 14
code reset = 15
code send_local_list = 16
code set_charging_profile = 17
code status_notification = 18
code transaction_event = 19
code trigger_message = 20
code unlock_connector = 21
code update_firmware = 22
code unknown = 23

abbrev pub action_eq : OcppMessageAction → OcppMessageAction → Bool
action_eq a b = code a == code b

-- The name of an action is read back as the same action.
pub string_to_action-action_to_string :
    (a : OcppMessageAction) → string_to_action (action_to_string a) ≡ a
unfolding string_to_action action_to_string
string_to_action-action_to_string authorize = refl
string_to_action-action_to_string boot_notification = refl
string_to_action-action_to_string cancel_reservation = refl
string_to_action-action_to_string change_availability = refl
string_to_action-action_to_string clear_cache = refl
string_to_action-action_to_string clear_charging_profile = refl
string_to_action-action_to_string data_transfer = refl
string_to_action-action_to_string get_composite_schedule = refl
string_to_action-action_to_string get_configuration = refl
string_to_action-action_to_string get_diagnostics = refl
string_to_action-action_to_string get_local_list_version = refl
string_to_action-action_to_string heartbeat = refl
string_to_action-action_to_string meter_values = refl
string_to_action-action_to_string remote_start_transaction = refl
string_to_action-action_to_string remote_stop_transaction = refl
string_to_action-action_to_string reset = refl
string_to_action-action_to_string send_local_list = refl
string_to_action-action_to_string set_charging_profile = refl
string_to_action-action_to_string status_notification = refl
string_to_action-action_to_string transaction_event = refl
string_to_action-action_to_string trigger_message = refl
string_to_action-action_to_string unlock_connector = refl
string_to_action-action_to_string update_firmware = refl
string_to_action-action_to_string unknown = refl

pub record OcppMessage (l : JsonLib) : Type 0 where
  pub type : MessageType
  pub id : String
  pub action : OcppMessageAction
  pub payload : l.Json

-- The members of an error's payload; a null value of `errorDetails` leaves the last one out.
unfoldable pub error_members : (l : JsonLib) → String → String → l.Json → Dict l.Json
error_members l error_code description details =
    let error : Dict l.Json =
      insert "description" (l.text description) (insert "code" (l.text error_code) []) in
    if l.is_null details then error else insert "details" details error

module _ {l : JsonLib} where
  -- `fresh` is what `generateMessageId` gives.
  unfoldable pub create_call : String → String → OcppMessageAction → l.Json → OcppMessage l
  create_call fresh id action payload = record {
    type = call;
    id = if str_eq id "" then fresh else id;
    action = action;
    payload = payload;
  }

  unfoldable pub create_call_result : String → l.Json → OcppMessage l
  create_call_result id payload = record {
    type = call_result;
    id = id;
    action = unknown;
    payload = payload;
  }

  unfoldable pub create_call_error : String → String → String → l.Json → OcppMessage l
  create_call_error id error_code description details = record {
    type = call_error;
    id = id;
    action = unknown;
    payload = l.object (error_members l error_code description details);
  }
