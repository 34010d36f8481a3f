-- ===== src/Evse/Connector.antt =====
-- What `EvseStateMachine` holds, its variables, its timers and its transitions from one state to the next.
use ocpp_gw.Base.{
  ℕ, ℤ, String, Bool, true, false, Option, none, some, [], ◌∷◌, ◌++◌, if◌then◌else◌, str_eq,
}
use ocpp_gw.Base.Dict.{Dict, lookup, insert}
use ocpp_gw.Evse.Types.{
  ConnectorStatus, EvseState, preparing, charging, suspended_ev, suspended_evse, finishing,
  Platform, Variable, Output, status_change, Evse,
}

-- `updateConnectorStatus`
unfoldable pub status_of : EvseState → ConnectorStatus
status_of EvseState.available = ConnectorStatus.available
status_of preparing = ConnectorStatus.occupied
status_of charging = ConnectorStatus.occupied
status_of suspended_ev = ConnectorStatus.occupied
status_of suspended_evse = ConnectorStatus.occupied
status_of finishing = ConnectorStatus.occupied
status_of EvseState.reserved = ConnectorStatus.reserved
status_of EvseState.unavailable = ConnectorStatus.unavailable
status_of EvseState.faulted = ConnectorStatus.faulted

unfoldable pub connector_status_to_string : ConnectorStatus → String
connector_status_to_string ConnectorStatus.available = "Available"
connector_status_to_string ConnectorStatus.occupied = "Occupied"
connector_status_to_string ConnectorStatus.reserved = "Reserved"
connector_status_to_string ConnectorStatus.unavailable = "Unavailable"
connector_status_to_string ConnectorStatus.faulted = "Faulted"

unfoldable pub string_to_connector_status : String → ConnectorStatus
string_to_connector_status s =
    if str_eq s "Available"
    then ConnectorStatus.available
    else if str_eq s "Occupied"
    then ConnectorStatus.occupied
    else if str_eq s "Reserved"
    then ConnectorStatus.reserved
    else if str_eq s "Unavailable"
    then ConnectorStatus.unavailable
    else if str_eq s "Faulted"
    then ConnectorStatus.faulted
    else ConnectorStatus.available

abbrev pub is_charging : EvseState → Bool
is_charging charging = true
is_charging _ = false

abbrev pub energy_register : String
energy_register = "MeterValue.Energy.Active.Import.Register"

module _ {p : Platform} where
  -- The constructor, with `initialize`.
  unfoldable pub create : ℤ → ℤ → Evse p
  unfolding status_of
  create evse_id connector_id = record {
    evse_id = evse_id;
    connector_id = connector_id;
    current_state = EvseState.available;
    connector_status = status_of EvseState.available;
    current_transaction = none;
    variables = [];
    has_status_callback = false;
    has_meter_callback = false;
    has_transaction_callback = false;
    heartbeat_armed = false;
    meter_armed = false;
    heartbeat_interval = 300;
    meter_value_interval = 60;
    transaction_seq_no = 0;
    outbox = [];
  }

  unfoldable pub set_status_change_callback : Evse p → Evse p
  set_status_change_callback s = record s { has_status_callback = true }

  unfoldable pub set_meter_value_callback : Evse p → Evse p
  set_meter_value_callback s = record s { has_meter_callback = true }

  unfoldable pub set_transaction_event_callback : Evse p → Evse p
  set_transaction_event_callback s = record s { has_transaction_callback = true }

  unfoldable pub set_variable :
      Evse p
      → String
      → String
      → String
      → Option p.Double
      → Option String
      → Option (Dict String)
      → Evse p
  set_variable s name value data_type scale unit enum_mapping = record s {
    variables = insert name var s.variables;
  }
    where
      var : Variable p
      var = record {
        name = name;
        value = value;
        data_type = data_type;
        scale = scale;
        unit = unit;
        enum_mapping = enum_mapping;
      }

  unfoldable pub get_variable : Evse p → String → Option (Variable p)
  get_variable s name = lookup name s.variables

  unfoldable pub get_variable_value : Evse p → String → String
  get_variable_value s name = elim (lookup name s.variables) [ none ↦ "" | some v ↦ v.value ]

  -- A callback that is set is called; one that is not is passed over.
  unfoldable pub call : Bool → Output p → Evse p → Evse p
  call present o s = if present then record s { outbox = s.outbox ++ (o ∷ []) } else s

  unfoldable pub start_meter_value_timer : ℕ → Evse p → Evse p
  start_meter_value_timer interval s = record s {
    meter_value_interval = interval;
    meter_armed = true;
  }

  unfoldable pub stop_meter_value_timer : Evse p → Evse p
  stop_meter_value_timer s = record s { meter_armed = false }

  unfoldable pub start_heartbeat : ℕ → Evse p → Evse p
  start_heartbeat interval s = record s { heartbeat_interval = interval; heartbeat_armed = true }

  unfoldable pub stop_heartbeat : Evse p → Evse p
  stop_heartbeat s = record s { heartbeat_armed = false }

  -- The timer part of `handleStateTransition`.
  unfoldable pub switch_meter_timer : EvseState → EvseState → Evse p → Evse p
  unfolding start_meter_value_timer stop_meter_value_timer
  switch_meter_timer old new s =
      if is_charging new
      then start_meter_value_timer s.meter_value_interval s
      else if is_charging old
      then stop_meter_value_timer s
      else s

  unfoldable pub handle_state_transition : EvseState → Evse p → Evse p
  unfolding status_of connector_status_to_string call switch_meter_timer
  handle_state_transition new s =
      let moved : Evse p = record s { current_state = new; connector_status = status_of new } in
      let notified =
        call moved.has_status_callback
          (status_change moved.connector_id "NoError"
            (connector_status_to_string moved.connector_status))
          moved in
      switch_meter_timer s.current_state new notified
