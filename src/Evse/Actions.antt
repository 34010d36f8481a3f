-- ===== src/Evse/Actions.antt =====
-- The calls that the gateway makes on one machine after its creation, and runs of them.
use ocpp_gw.Base.{ℕ, String, Option, List, [], ◌∷◌}
use ocpp_gw.Base.Dict.{Dict}
use ocpp_gw.Evse.Types.{EvseEvent, Platform, Evse, Readings, IdTag, Completion}
use ocpp_gw.Evse.Machine.{process_event, on_heartbeat_timer, on_meter_value_timer}
use ocpp_gw.Evse.Connector.{
  set_variable, start_heartbeat, stop_heartbeat, start_meter_value_timer, stop_meter_value_timer,
}

pub data Action (p : Platform) : Type 0 where
  handles : EvseEvent → Readings p → IdTag → Action p
  heartbeat_due : Completion → Action p
  meter_due : Completion → Readings p → Action p
  starts_heartbeat starts_meter : ℕ → Action p
  stops_heartbeat stops_meter : Action p
  sets :
      String → String → String → Option p.Double → Option String → Option (Dict String) → Action p

module _ {p : Platform} where
  unfoldable pub step : Evse p → Action p → Evse p
  step s (handles e r d) = (process_event e r d s).0
  step s (heartbeat_due c) = on_heartbeat_timer c s
  step s (meter_due c r) = on_meter_value_timer c r s
  step s (starts_heartbeat n) = start_heartbeat n s
  step s (starts_meter n) = start_meter_value_timer n s
  step s stops_heartbeat = stop_heartbeat s
  step s stops_meter = stop_meter_value_timer s
  step s (sets name value type scale unit enums) = set_variable s name value type scale unit enums

  unfoldable pub run : Evse p → List (Action p) → Evse p
  run s [] = s
  run s (a ∷ as') = run (step s a) as'
