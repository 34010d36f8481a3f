-- ===== src/Evse/Machine.antt =====
-- The events and timers of `EvseStateMachine`, each from one state of the object to the next.
use ocpp_gw.Base.{
  suc, String, Bool, true, false, Option, none, some, [], ◌∷◌, ◌++◌, if◌then◌else◌, str_eq, is_some,
  ◌&&◌,
}
use ocpp_gw.Evse.Types.{
  EvseState, preparing, charging, suspended_ev, suspended_evse, finishing, EvseEvent, plug_in,
  plug_out, authorize_start, authorize_stop, stop_charging, suspend_charging_ev,
  suspend_charging_evse, resume_charging, reserve, cancel_reservation, set_unavailable,
  set_available, fault_detected, fault_cleared, active, completed, Platform, SampledValue,
  MeterValue, Transaction, Variable, meter_value, transaction_event, Evse, Readings, IdTag, missing,
  not_string, tag, Reply, accepted, refused, type_error, Completion, aborted, failed,
}
use ocpp_gw.Evse.Connector.{
  is_charging, energy_register, get_variable, call, handle_state_transition,
}

abbrev scaled : (p : Platform) → Option p.Double → p.Double → p.Double
scaled p none x = x
scaled p (some k) x = p.mul x k

module _ {p : Platform} where
  abbrev parsed : Variable p → Option p.Double
  parsed v = elim (p.stod v.value) [ none ↦ none | some x ↦ some (scaled p v.scale x) ]

  -- The value of the energy register: `none` where the variable is missing, empty or unparsable.
  unfoldable pub meter_reading : Evse p → Option p.Double
  unfolding get_variable
  meter_reading s = elim (get_variable s energy_register) [
    | none ↦ none
    | some v ↦ if str_eq v.value "" then none else parsed v
  ]

  unfoldable pub reading_or_zero : Evse p → p.Double
  reading_or_zero s = elim (meter_reading s) [ none ↦ p.zero_double | some x ↦ x ]

  -- A transaction event under the next sequence number, `transaction_seq_no_++`.
  unfoldable pub notify_transaction : String → String → String → String → p.Double → Evse p → Evse p
  unfolding call
  notify_transaction type timestamp reason id value s =
      if s.has_transaction_callback
      then call true
          (transaction_event type timestamp reason s.transaction_seq_no id s.evse_id value)
          (record s { transaction_seq_no = suc s.transaction_seq_no })
      else s

  -- The transaction that `startTransaction` stores, the one that `stopTransaction` completes, and
  -- one with a sample more.
  abbrev pub opened_transaction : Readings p → String → Transaction p
  opened_transaction r id_tag = record {
    id = r.fresh_id;
    id_tag = id_tag;
    start_time = r.now;
    stop_time = none;
    meter_values = [];
    status = active;
  }

  abbrev pub ended_transaction : Readings p → Transaction p → Transaction p
  ended_transaction r t = record t { stop_time = some r.now; status = completed }

  abbrev pub sampled_transaction : Readings p → p.Double → Transaction p → Transaction p
  sampled_transaction r value t = record t { meter_values = t.meter_values ++ (sample ∷ []) }
    where
      reading : SampledValue
      reading = record {
        value = p.to_string value;
        context = "Sample.Periodic";
        format = "Raw";
        measurand = "Energy.Active.Import.Register";
        phase = "";
        location = "";
        unit = "Wh";
      }

      sample : MeterValue p
      sample = record { timestamp = r.now; sampled_values = reading ∷ [] }

  unfoldable pub start_transaction : Readings p → String → Evse p → Evse p × Bool
  start_transaction r id_tag s = elim s.current_transaction [
    | some t ↦ (s, false)
    | none ↦
        let stored : Evse p = record s {
          current_transaction = some (opened_transaction r id_tag);
          transaction_seq_no = 0;
        } in
        (
          notify_transaction "Started" (p.iso8601 r.notified_at) "Authorized" r.fresh_id
              (reading_or_zero stored) stored,
          true,
        )
  ]

  unfoldable pub stop_transaction : Readings p → String → Evse p → Evse p × Bool
  stop_transaction r reason s = elim s.current_transaction [
    | none ↦ (s, false)
    | some t ↦
        let stored : Evse p = record s { current_transaction = some (ended_transaction r t) } in
        let notified =
          notify_transaction "Ended" (p.iso8601 r.notified_at) reason t.id (reading_or_zero stored)
            stored in
        (record notified { current_transaction = none }, true)
  ]

  unfoldable pub add_meter_value : Readings p → p.Double → Evse p → Evse p
  add_meter_value r value s = elim s.current_transaction [
    | none ↦ s
    | some t ↦
        let stored : Evse p = record s {
          current_transaction = some (sampled_transaction r value t);
        } in
        notify_transaction "Updated" (p.iso8601 r.notified_at) "MeterValue" t.id value
          (call s.has_meter_callback (meter_value s.evse_id value) stored)
  ]

  unfoldable pub move_to : EvseState → Evse p → Evse p × Reply
  unfolding handle_state_transition
  move_to new s = (handle_state_transition new s, accepted)

  -- `AUTHORIZE_START` in state PREPARING.
  unfoldable pub start_authorized : Readings p → IdTag → Evse p → Evse p × Reply
  start_authorized r missing s = (s, refused)
  start_authorized r not_string s = (s, type_error)
  start_authorized r (tag id_tag) s =
      let (s', started) = start_transaction r id_tag s in
      if started then move_to charging s' else (s', refused)

  unfoldable pub stop_with : Readings p → String → Evse p → Evse p × Reply
  stop_with r reason s =
      let (s', stopped) = stop_transaction r reason s in
      if stopped then move_to finishing s' else (s', refused)

  -- `AUTHORIZE_STOP` in the three states with a transaction.
  unfoldable pub stop_authorized : Readings p → IdTag → Evse p → Evse p × Reply
  stop_authorized r missing s = (s, refused)
  stop_authorized r _ s = stop_with r "DeAuthorized" s

  -- `FAULT_DETECTED` there: the result of `stopTransaction` is not looked at.
  unfoldable pub fault_with_transaction : Readings p → Evse p → Evse p × Reply
  fault_with_transaction r s = move_to EvseState.faulted (stop_transaction r "Faulted" s).0

  -- The two nested switches; the last clause is every `default`.
  unfoldable pub dispatch : EvseState → EvseEvent → Readings p → IdTag → Evse p → Evse p × Reply
  dispatch EvseState.available plug_in r d s = move_to preparing s
  dispatch EvseState.available reserve r d s = move_to EvseState.reserved s
  dispatch EvseState.available set_unavailable r d s = move_to EvseState.unavailable s
  dispatch EvseState.available fault_detected r d s = move_to EvseState.faulted s
  dispatch preparing plug_out r d s = move_to EvseState.available s
  dispatch preparing authorize_start r d s = start_authorized r d s
  dispatch preparing set_unavailable r d s = move_to EvseState.unavailable s
  dispatch preparing fault_detected r d s = move_to EvseState.faulted s
  dispatch charging stop_charging r d s = stop_with r "Local" s
  dispatch charging authorize_stop r d s = stop_authorized r d s
  dispatch charging suspend_charging_ev r d s = move_to suspended_ev s
  dispatch charging suspend_charging_evse r d s = move_to suspended_evse s
  dispatch charging fault_detected r d s = fault_with_transaction r s
  dispatch suspended_ev resume_charging r d s = move_to charging s
  dispatch suspended_ev stop_charging r d s = stop_with r "Local" s
  dispatch suspended_ev authorize_stop r d s = stop_authorized r d s
  dispatch suspended_ev fault_detected r d s = fault_with_transaction r s
  dispatch suspended_evse resume_charging r d s = move_to charging s
  dispatch suspended_evse stop_charging r d s = stop_with r "Local" s
  dispatch suspended_evse authorize_stop r d s = stop_authorized r d s
  dispatch suspended_evse fault_detected r d s = fault_with_transaction r s
  dispatch finishing plug_out r d s = move_to EvseState.available s
  dispatch finishing fault_detected r d s = move_to EvseState.faulted s
  dispatch EvseState.reserved plug_in r d s = move_to preparing s
  dispatch EvseState.reserved cancel_reservation r d s = move_to EvseState.available s
  dispatch EvseState.reserved set_unavailable r d s = move_to EvseState.unavailable s
  dispatch EvseState.reserved fault_detected r d s = move_to EvseState.faulted s
  dispatch EvseState.unavailable set_available r d s = move_to EvseState.available s
  dispatch EvseState.unavailable fault_detected r d s = move_to EvseState.faulted s
  dispatch EvseState.faulted fault_cleared r d s = move_to EvseState.available s
  dispatch _ _ r d s = (s, refused)

  unfoldable pub process_event : EvseEvent → Readings p → IdTag → Evse p → Evse p × Reply
  unfolding dispatch
  process_event e r d s = dispatch s.current_state e r d s

  -- A wait that was cancelled completes as `aborted`; the next wait, if any, is not touched.
  unfoldable pub on_heartbeat_timer : Completion → Evse p → Evse p
  on_heartbeat_timer Completion.expired s = record s { heartbeat_armed = true }
  on_heartbeat_timer aborted s = s
  on_heartbeat_timer failed s = record s { heartbeat_armed = false }

  -- The body of `onMeterValueTimer` that reads the energy register.
  unfoldable pub sample_meter : Readings p → Evse p → Evse p
  sample_meter r s = elim (meter_reading s) [ none ↦ s | some x ↦ add_meter_value r x s ]

  -- On any other completion the wait is over when the handler runs.
  unfoldable pub on_meter_value_timer : Completion → Readings p → Evse p → Evse p
  on_meter_value_timer Completion.expired r s =
      let waited : Evse p = record s { meter_armed = false } in
      let sampled =
        if is_charging waited.current_state && is_some waited.current_transaction
        then sample_meter r waited
        else waited in
      if is_charging sampled.current_state then record sampled { meter_armed = true } else sampled
  on_meter_value_timer aborted r s = s
  on_meter_value_timer failed r s = record s { meter_armed = false }
