-- ===== src/Evse/Trace/Operations.antt =====
-- Every operation of the machine keeps to the protocol of transaction events.
use text.Mathlib.TextPositions.{eq_refl}
use ocpp_gw.Base.{
  ℕ, suc, ℤ, ◌≡◌, refl, inl, inr, String, Bool, false, none, some, Option-cases, List, [], ◌∷◌,
  str_eq, if◌then◌else◌, arith,
}
use ocpp_gw.Evse.Types.{
  EvseState, charging, finishing, EvseEvent, Platform, Transaction, Output, meter_value, Evse,
  Readings, IdTag, missing, not_string, tag, Reply, Completion, aborted, failed,
}
use ocpp_gw.Evse.Machine.{
  start_transaction, stop_transaction, meter_reading, sample_meter, add_meter_value, move_to,
  start_authorized, stop_with, stop_authorized, fault_with_transaction, process_event,
  on_heartbeat_timer, on_meter_value_timer, reading_or_zero, opened_transaction, ended_transaction,
  sampled_transaction,
}
use ocpp_gw.Evse.Connector.{
  create, set_variable, set_status_change_callback, set_meter_value_callback,
  set_transaction_event_callback, start_heartbeat, stop_heartbeat, start_meter_value_timer,
  stop_meter_value_timer, call,
}
use ocpp_gw.Evse.Actions.{Action, handles, heartbeat_due, meter_due, step, run}
use ocpp_gw.Evse.Diagram.{
  Effect, refuses, moves, starts, stops, stops_authorized, faults, dispatch-Effect,
}
use ocpp_gw.Evse.Trace.{
  idle, opened, observe, replay, phase_of, Follows, call-Follows, handle_state_transition-Follows,
  notify_transaction_lem,
}

observe_next :
    (id type : String) (n : ℕ)
    → observe (opened id n) type n id ≡ (
        if str_eq type "Updated"
        then some (opened id (suc n))
        else if str_eq type "Ended"
        then some idle
        else none)
observe_next id type n = ground (arith, eq_refl id)

module _ {p : Platform} where
  start_transaction-Follows :
      (r : Readings p) (t : String) (s : Evse p) → Follows s → Follows (start_transaction r t s).0
  unfolding start_transaction
  start_transaction-Follows r t s f =
      let stored = record s {
        current_transaction = some (opened_transaction r t);
        transaction_seq_no = 0;
      } in
      ground (
        arith,
        notify_transaction_lem "Started" (p.iso8601 r.notified_at) "Authorized" r.fresh_id
            (reading_or_zero stored) stored idle (opened r.fresh_id 1),
      )

  stop_transaction-Follows :
      (r : Readings p) (reason : String) (s : Evse p)
      → Follows s
      → Follows (stop_transaction r reason s).0
  unfolding stop_transaction
  stop_transaction-Follows r reason s f = elim (Option-cases s.current_transaction) [
    | inl e ↦ rw (e, stop_transaction) f
    | inr (t, e) ↦
        let stored = record s { current_transaction = some (ended_transaction r t) } in
        ground (
          arith,
          observe_next t.id "Ended" s.transaction_seq_no,
          notify_transaction_lem "Ended" (p.iso8601 r.notified_at) reason t.id
              (reading_or_zero stored) stored (opened t.id s.transaction_seq_no) idle,
        )
  ]

  call_keeps :
      (present : Bool) (o : Output p) (s : Evse p)
      → ((call present o s).current_transaction ≡ s.current_transaction)
        × ((call present o s).transaction_seq_no ≡ s.transaction_seq_no)
  unfolding call
  call_keeps present o s = ground arith

  -- The machine with the sample stored and the meter callback called.
  metered-Follows :
      (r : Readings p) (x : p.Double) (t : Transaction p) (s : Evse p)
      → s.current_transaction ≡ some t
      → Follows s
      → let stored = record s { current_transaction = some (sampled_transaction r x t) } in
        Follows (call s.has_meter_callback (meter_value s.evse_id x) stored)
  metered-Follows r x t s e f =
      call-Follows s.has_meter_callback (meter_value s.evse_id x) _ (λ ph. refl) (ground arith)

  add_meter_value-Follows :
      (r : Readings p) (x : p.Double) (s : Evse p) → Follows s → Follows (add_meter_value r x s)
  unfolding add_meter_value
  add_meter_value-Follows r x s f = elim (Option-cases s.current_transaction) [
    | inl e ↦ rw (e, add_meter_value) f
    | inr (t, e) ↦
        let stored = record s { current_transaction = some (sampled_transaction r x t) } in
        let metered = call s.has_meter_callback (meter_value s.evse_id x) stored in
        ground (
          arith,
          call_keeps s.has_meter_callback (meter_value s.evse_id x) stored,
          metered-Follows r x t s e f,
          observe_next t.id "Updated" s.transaction_seq_no,
          notify_transaction_lem "Updated" (p.iso8601 r.notified_at) "MeterValue" t.id x metered
              (opened t.id s.transaction_seq_no) (opened t.id (suc s.transaction_seq_no)),
        )
  ]

  start_authorized-Follows :
      (r : Readings p) (d : IdTag) (s : Evse p) → Follows s → Follows (start_authorized r d s).0
  unfolding start_authorized move_to
  start_authorized-Follows r missing s f = f
  start_authorized-Follows r not_string s f = f
  start_authorized-Follows r (tag t) s f = ground (
    arith,
    start_transaction-Follows r t s f,
    handle_state_transition-Follows charging (start_transaction r t s).0,
  )

  stop_with-Follows :
      (r : Readings p) (reason : String) (s : Evse p) → Follows s → Follows (stop_with r reason s).0
  unfolding stop_with move_to
  stop_with-Follows r reason s f = ground (
    arith,
    stop_transaction-Follows r reason s f,
    handle_state_transition-Follows finishing (stop_transaction r reason s).0,
  )

  Effect-Follows :
      (e : EvseEvent) (r : Readings p) (d : IdTag) (s : Evse p) (x : Evse p × Reply)
      → Follows s
      → Effect s.current_state e r d s x
      → Follows x.0
  unfolding move_to fault_with_transaction stop_authorized
  Effect-Follows e r d s x f (refuses n q) = rw q f
  Effect-Follows e r d s x f (moves new g t q) = rw q (handle_state_transition-Follows new s f)
  Effect-Follows e r d s x f (starts _ _ q) = rw q (start_authorized-Follows r d s f)
  Effect-Follows e r d s x f (stops _ _ q) = rw q (stop_with-Follows r "Local" s f)
  Effect-Follows e r missing s x f (stops_authorized _ _ q) = rw q f
  Effect-Follows e r _ s x f (stops_authorized _ _ q) =
      rw q (stop_with-Follows r "DeAuthorized" s f)
  Effect-Follows e r d s x f (faults _ _ q) = rw q (
      handle_state_transition-Follows EvseState.faulted _
        (stop_transaction-Follows r "Faulted" s f))

  process_event-Follows :
      (e : EvseEvent) (r : Readings p) (d : IdTag) (s : Evse p)
      → Follows s
      → Follows (process_event e r d s).0
  unfolding process_event
  process_event-Follows e r d s f =
      Effect-Follows e r d s _ f (dispatch-Effect s.current_state e r d s)

  sample_meter-Follows : (r : Readings p) (s : Evse p) → Follows s → Follows (sample_meter r s)
  unfolding sample_meter
  sample_meter-Follows r s f = elim (Option-cases (meter_reading s)) [
    | inl e ↦ rw (e, sample_meter) f
    | inr (x, e) ↦ rw (e, sample_meter) (add_meter_value-Follows r x s f)
  ]

  on_meter_value_timer-Follows :
      (c : Completion) (r : Readings p) (s : Evse p)
      → Follows s
      → Follows (on_meter_value_timer c r s)
  unfolding on_meter_value_timer
  on_meter_value_timer-Follows Completion.expired r s f =
      ground (arith, sample_meter-Follows r (record s { meter_armed = false }))
  on_meter_value_timer-Follows aborted r s f = f
  on_meter_value_timer-Follows failed r s f = ground arith

  step-Follows : (s : Evse p) (a : Action p) → Follows s → Follows (step s a)
  unfolding step on_heartbeat_timer start_heartbeat stop_heartbeat start_meter_value_timer
      stop_meter_value_timer set_variable
  step-Follows s (handles e r d) f = process_event-Follows e r d s f
  step-Follows s (meter_due c r) f = on_meter_value_timer-Follows c r s f
  step-Follows s (heartbeat_due Completion.expired) f = ground arith
  step-Follows s (heartbeat_due _) f = ground arith
  step-Follows s _ f = ground arith

  run-Follows : (s : Evse p) (as' : List (Action p)) → Follows s → Follows (run s as')
  unfolding run
  run-Follows s [] f = f
  run-Follows s (a ∷ as') f = run-Follows (step s a) as' (step-Follows s a f)

  -- A machine as `addEvse` sets it up: created, with its three callbacks.
  abbrev pub managed : ℤ → ℤ → Evse p
  managed evse_id connector_id =
      set_transaction_event_callback
        (set_meter_value_callback (set_status_change_callback (create evse_id connector_id)))

  managed-Follows : (evse_id connector_id : ℤ) → Follows (managed evse_id connector_id)
  unfolding create set_transaction_event_callback set_meter_value_callback
      set_status_change_callback replay
  managed-Follows evse_id connector_id = ground arith

  -- Whatever the gateway does with a machine that it has set up, the transaction events sent obey the
  -- protocol: between transactions only a "Started" event numbered 0 is sent; in a transaction every event
  -- carries its id and the next number, until "Ended"; and the observer's phase at the end is that of the
  -- machine's own transaction and counter.
  pub run-managed_replays :
      (evse_id connector_id : ℤ) (as' : List (Action p))
      → let s = run (managed evse_id connector_id) as' in
        replay (some idle) s.outbox ≡ some (phase_of s.current_transaction s.transaction_seq_no)
  run-managed_replays evse_id connector_id as' =
      (run-Follows (managed evse_id connector_id) as'
        (managed-Follows evse_id connector_id)).replayed
