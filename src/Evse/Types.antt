-- ===== src/Evse/Types.antt =====
-- The enumerations and structs of evse_state_machine.h.
use ocpp_gw.Base.{ℕ, ℤ, String, Bool, Option, List}
use ocpp_gw.Base.Dict.{Dict}

pub data ConnectorStatus : Type 0 where
  available occupied reserved unavailable faulted : ConnectorStatus

pub data EvseState : Type 0 where
  available preparing charging suspended_ev suspended_evse finishing : EvseState
  reserved unavailable faulted : EvseState

pub data EvseEvent : Type 0 where
  plug_in plug_out authorize_start authorize_stop start_charging stop_charging : EvseEvent
  suspend_charging_ev suspend_charging_evse resume_charging reserve : EvseEvent
  cancel_reservation set_unavailable set_available fault_detected fault_cleared : EvseEvent

pub data TransactionStatus : Type 0 where
  active completed expired rejected : TransactionStatus

-- What the machine takes from the C++ library: time points, `double`, and their conversions.
-- `stod` answers `none` where `std::stod` throws; `iso8601` is `std::put_time` over `std::gmtime`.
pub record Platform : Type 1 where
  pub Time : Type 0
  pub Double : Type 0
  pub zero_double : Double
  pub mul : Double → Double → Double
  pub stod : String → Option Double
  pub to_string : Double → String
  pub iso8601 : Time → String

pub record SampledValue : Type 0 where
  pub value : String
  pub context : String
  pub format : String
  pub measurand : String
  pub phase : String
  pub location : String
  pub unit : String

pub record MeterValue (p : Platform) : Type 0 where
  pub timestamp : p.Time
  pub sampled_values : List SampledValue

pub record Transaction (p : Platform) : Type 0 where
  pub id : String
  pub id_tag : String
  pub start_time : p.Time
  pub stop_time : Option p.Time
  pub meter_values : List (MeterValue p)
  pub status : TransactionStatus

pub record Variable (p : Platform) : Type 0 where
  pub name : String
  pub value : String
  pub data_type : String
  pub scale : Option p.Double
  pub unit : Option String
  pub enum_mapping : Option (Dict String)

-- A call of one of the three callbacks, with its arguments.
pub data Output (p : Platform) : Type 0 where
  status_change : ℤ → String → String → Output p
  meter_value : ℤ → p.Double → Output p
  transaction_event : String → String → String → ℕ → String → ℤ → p.Double → Output p

-- The fields of the class. A callback is present or not, a timer has a pending wait or not, and
-- `outbox` lists the calls of the callbacks so far, oldest first.
pub record Evse (p : Platform) : Type 0 where
  pub evse_id : ℤ
  pub connector_id : ℤ
  pub current_state : EvseState
  pub connector_status : ConnectorStatus
  pub current_transaction : Option (Transaction p)
  pub variables : Dict (Variable p)
  pub has_status_callback : Bool
  pub has_meter_callback : Bool
  pub has_transaction_callback : Bool
  pub heartbeat_armed : Bool
  pub meter_armed : Bool
  pub heartbeat_interval : ℕ
  pub meter_value_interval : ℕ
  pub transaction_seq_no : ℕ
  pub outbox : List (Output p)

-- What the clock and the generator of transaction ids answer while one event is handled:
-- `now` for the time stored, `notified_at` for the later reading that a callback is given.
pub record Readings (p : Platform) : Type 0 where
  pub now : p.Time
  pub notified_at : p.Time
  pub fresh_id : String

-- The `idTag` of the event's JSON data: absent, of a type other than string, or a string.
pub data IdTag : Type 0 where
  missing not_string : IdTag
  tag : String → IdTag

-- What `processEvent` returns, or that the conversion of a wrongly typed `idTag` throws.
pub data Reply : Type 0 where
  accepted refused type_error : Reply

-- A timer's completion code.
pub data Completion : Type 0 where
  expired aborted failed : Completion
