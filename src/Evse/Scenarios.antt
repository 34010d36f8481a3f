-- ===== src/Evse/Scenarios.antt =====
-- One machine through a charging session, and the theorems at concrete inputs.
use ocpp_gw.Base.{ℕ, pos, ◌≡◌, refl, inl, some, List, [], ◌∷◌}
use ocpp_gw.Base.Dict.{lookup}
use ocpp_gw.Evse.Types.{
  EvseState, preparing, suspended_ev, plug_in, authorize_start, suspend_charging_ev, Platform, Evse,
  Readings, tag, missing, accepted, Completion,
}
use ocpp_gw.Evse.Machine.{
  process_event, dispatch, move_to, start_authorized, start_transaction, notify_transaction,
  on_meter_value_timer, sample_meter, meter_reading,
}
use ocpp_gw.Evse.Connector.{
  handle_state_transition, create, set_status_change_callback, set_meter_value_callback,
  set_transaction_event_callback,
}
use ocpp_gw.Evse.Actions.{Action, handles, meter_due, step, run}
use ocpp_gw.Evse.Trace.{idle, opened, replay}
use ocpp_gw.Evse.Trace.Operations.{managed, run-managed_replays}
use ocpp_gw.Evse.Invariant.{IsConsistent, create-IsConsistent, run-IsConsistent}
use ocpp_gw.Evse.Accepts.{Takes, process_event-Takes, process_event_accepts}

-- Numbers for time points and readings.
abbrev toy : Platform
toy = record {
  Time = ℕ;
  Double = ℕ;
  zero_double = 0;
  mul = λ a b. a;
  stod = λ s. some 7;
  to_string = λ x. "7";
  iso8601 = λ t. "now";
}

abbrev readings : Readings toy
readings = record { now = 1; notified_at = 2; fresh_id = "T1" }

abbrev fresh : Evse toy
fresh = managed (pos 1) (pos 2)

-- Plugged in, authorised, sampled once (with no value to read), suspended by the vehicle.
abbrev session : List (Action toy)
session =
    handles plug_in readings missing
    ∷ handles authorize_start readings (tag "card")
    ∷ meter_due Completion.expired readings
    ∷ handles suspend_charging_ev readings missing
    ∷ []

run-managed_replays_example :
    let s = run fresh session in replay (some idle) s.outbox ≡ some (opened "T1" 1)
unfolding run step process_event dispatch move_to start_authorized start_transaction
    notify_transaction handle_state_transition on_meter_value_timer sample_meter create
    meter_reading set_status_change_callback set_meter_value_callback set_transaction_event_callback
    replay lookup
run-managed_replays_example = run-managed_replays (pos 1) (pos 2) session

session_state : (run fresh session).current_state ≡ suspended_ev
unfolding run step process_event dispatch move_to start_authorized start_transaction
    notify_transaction handle_state_transition on_meter_value_timer sample_meter create
    meter_reading set_status_change_callback set_meter_value_callback set_transaction_event_callback
    lookup
session_state = refl

run-IsConsistent_example : IsConsistent (run {p = toy} (create (pos 1) (pos 2)) session)
run-IsConsistent_example =
    run-IsConsistent (create (pos 1) (pos 2)) session (create-IsConsistent (pos 1) (pos 2))

process_event-Takes_example :
    Takes EvseState.available plug_in fresh (process_event plug_in readings missing fresh)
unfolding create set_status_change_callback set_meter_value_callback set_transaction_event_callback
process_event-Takes_example = process_event-Takes plug_in readings missing fresh

process_event_accepts_example :
    ((process_event {p = toy} plug_in readings missing (create (pos 1) (pos 2))).1 ≡ accepted)
    × ((process_event {p = toy} plug_in readings missing (create (pos 1) (pos 2))).0.current_state
        ≡ preparing)
unfolding create
process_event_accepts_example =
    process_event_accepts plug_in preparing readings missing (create (pos 1) (pos 2))
      (create-IsConsistent (pos 1) (pos 2)) (inl refl, refl) tt
