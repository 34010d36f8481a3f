-- ===== src/Evse/Timer.antt =====
-- The meter timer runs in state CHARGING and in no other.
use ocpp_gw.Base.{◌≡◌, refl, String, false, Option-cases, inl, inr, arith, ◌≢◌}
use ocpp_gw.Evse.Types.{
  EvseState, charging, finishing, EvseEvent, Platform, Evse, Readings, IdTag, missing, not_string,
  tag, Reply, Completion, aborted, failed,
}
use ocpp_gw.Evse.Machine.{
  notify_transaction, start_transaction, stop_transaction, meter_reading, sample_meter,
  add_meter_value, move_to, start_authorized, stop_with, stop_authorized, fault_with_transaction,
  process_event, on_meter_value_timer,
}
use ocpp_gw.Evse.Connector.{is_charging, call, handle_state_transition}
use ocpp_gw.Evse.Diagram.{
  Effect, refuses, moves, starts, stops, stops_authorized, faults, dispatch-Effect,
}

module _ {p : Platform} where
  abbrev pub IsTimed : Evse p → Type 0
  IsTimed s = s.meter_armed ≡ is_charging s.current_state

  handle_state_transition-IsTimed :
      (new : EvseState) (s : Evse p) → IsTimed s → IsTimed (handle_state_transition new s)
  unfolding handle_state_transition
  handle_state_transition-IsTimed new s h = ground arith

  -- The operations on transactions touch neither the state nor the timer.
  start_transaction_keeps :
      (r : Readings p) (t : String) (s : Evse p)
      → let s' = (start_transaction r t s).0 in
        (s'.meter_armed ≡ s.meter_armed) × (s'.current_state ≡ s.current_state)
  unfolding start_transaction notify_transaction
  start_transaction_keeps r t s = ground arith

  stop_transaction_keeps :
      (r : Readings p) (reason : String) (s : Evse p)
      → let s' = (stop_transaction r reason s).0 in
        (s'.meter_armed ≡ s.meter_armed) × (s'.current_state ≡ s.current_state)
  unfolding stop_transaction notify_transaction
  stop_transaction_keeps r reason s = ground arith

  add_meter_value_keeps :
      (r : Readings p) (x : p.Double) (s : Evse p)
      → ((add_meter_value r x s).meter_armed ≡ s.meter_armed)
        × ((add_meter_value r x s).current_state ≡ s.current_state)
  unfolding add_meter_value notify_transaction call
  add_meter_value_keeps r x s = ground arith

  sample_meter_keeps :
      (r : Readings p) (s : Evse p)
      → ((sample_meter r s).meter_armed ≡ s.meter_armed)
        × ((sample_meter r s).current_state ≡ s.current_state)
  unfolding sample_meter
  sample_meter_keeps r s = elim (Option-cases (meter_reading s)) [
    | inl e ↦ rw (e, sample_meter) (refl, refl)
    | inr (x, e) ↦ rw (e, sample_meter) (add_meter_value_keeps r x s)
  ]

  start_authorized-IsTimed :
      (r : Readings p) (d : IdTag) (s : Evse p) → IsTimed s → IsTimed (start_authorized r d s).0
  unfolding start_authorized move_to
  start_authorized-IsTimed r missing s h = h
  start_authorized-IsTimed r not_string s h = h
  start_authorized-IsTimed r (tag t) s h = ground (
    arith,
    start_transaction_keeps r t s,
    handle_state_transition-IsTimed charging (start_transaction r t s).0,
  )

  stop_with-IsTimed :
      (r : Readings p) (reason : String) (s : Evse p) → IsTimed s → IsTimed (stop_with r reason s).0
  unfolding stop_with move_to
  stop_with-IsTimed r reason s h = ground (
    arith,
    stop_transaction_keeps r reason s,
    handle_state_transition-IsTimed finishing (stop_transaction r reason s).0,
  )

  Effect-IsTimed :
      (e : EvseEvent) (r : Readings p) (d : IdTag) (s : Evse p) (x : Evse p × Reply)
      → IsTimed s
      → Effect s.current_state e r d s x
      → IsTimed x.0
  unfolding move_to fault_with_transaction stop_authorized
  Effect-IsTimed e r d s x h (refuses n q) = rw q h
  Effect-IsTimed e r d s x h (moves new g t q) = rw q (handle_state_transition-IsTimed new s h)
  Effect-IsTimed e r d s x h (starts _ _ q) = rw q (start_authorized-IsTimed r d s h)
  Effect-IsTimed e r d s x h (stops _ _ q) = rw q (stop_with-IsTimed r "Local" s h)
  Effect-IsTimed e r missing s x h (stops_authorized _ _ q) = rw q h
  Effect-IsTimed e r _ s x h (stops_authorized _ _ q) =
      rw q (stop_with-IsTimed r "DeAuthorized" s h)
  Effect-IsTimed e r d s x h (faults _ _ q) = rw q (
      ground (
        arith,
        stop_transaction_keeps r "Faulted" s,
        handle_state_transition-IsTimed EvseState.faulted (stop_transaction r "Faulted" s).0,
      ))

  -- If the meter timer is armed exactly in state CHARGING, it is so after any event.
  pub process_event-IsTimed :
      (e : EvseEvent) (r : Readings p) (d : IdTag) (s : Evse p)
      → IsTimed s
      → IsTimed (process_event e r d s).0
  unfolding process_event
  process_event-IsTimed e r d s h =
      Effect-IsTimed e r d s _ h (dispatch-Effect s.current_state e r d s)

  -- After every completion of the meter timer's wait that is no error the timer is armed exactly in state
  -- CHARGING, if it was so before.
  pub on_meter_value_timer-IsTimed :
      (c : Completion) (r : Readings p) (s : Evse p)
      → c ≢ failed
      → IsTimed s
      → IsTimed (on_meter_value_timer c r s)
  unfolding on_meter_value_timer
  on_meter_value_timer-IsTimed Completion.expired r s n h =
      ground (arith, sample_meter_keeps r (record s { meter_armed = false }))
  on_meter_value_timer-IsTimed aborted r s n h = h
  on_meter_value_timer-IsTimed failed r s n h = absurd (n refl)
