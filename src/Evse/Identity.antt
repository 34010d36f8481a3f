-- ===== src/Evse/Identity.antt =====
-- A machine keeps its identifiers.
use ocpp_gw.Base.{ℤ, ◌≡◌, inl, inr, String, false, Option-cases, arith}
use ocpp_gw.Evse.Types.{
  EvseState, charging, finishing, EvseEvent, Platform, Evse, Readings, IdTag, missing, not_string,
  tag, Reply, Completion, aborted, failed,
}
use ocpp_gw.Evse.Machine.{
  notify_transaction, start_transaction, stop_transaction, meter_reading, sample_meter,
  add_meter_value, move_to, start_authorized, stop_with, stop_authorized, fault_with_transaction,
  process_event, on_heartbeat_timer, on_meter_value_timer,
}
use ocpp_gw.Evse.Connector.{
  set_variable, start_heartbeat, stop_heartbeat, start_meter_value_timer, stop_meter_value_timer,
  handle_state_transition, switch_meter_timer, call,
}
use ocpp_gw.Evse.Actions.{
  Action, handles, heartbeat_due, meter_due, starts_heartbeat, starts_meter, stops_heartbeat,
  stops_meter, sets, step,
}
use ocpp_gw.Evse.Diagram.{
  Effect, refuses, moves, starts, stops, stops_authorized, faults, dispatch-Effect,
}

module _ {p : Platform} where
  pub record HasIds (evse_id connector_id : ℤ) (s : Evse p) : Type 0 where
    pub evse : s.evse_id ≡ evse_id
    pub connector : s.connector_id ≡ connector_id

  module _ {i j : ℤ} where
    move_to-HasIds : (new : EvseState) (s : Evse p) → HasIds i j s → HasIds i j (move_to new s).0
    unfolding move_to handle_state_transition switch_meter_timer call
    move_to-HasIds new s h = record {
      evse = ground (arith, h.evse);
      connector = ground (arith, h.connector);
    }

    notify_transaction-HasIds :
        (a b c d : String) (x : p.Double) (s : Evse p)
        → HasIds i j s
        → HasIds i j (notify_transaction a b c d x s)
    unfolding notify_transaction
    notify_transaction-HasIds a b c d x s h = record {
      evse = ground (arith, h.evse);
      connector = ground (arith, h.connector);
    }

    start_authorized-HasIds :
        (r : Readings p) (d : IdTag) (s : Evse p)
        → HasIds i j s
        → HasIds i j (start_authorized r d s).0
    unfolding start_authorized start_transaction
    start_authorized-HasIds r missing s h = h
    start_authorized-HasIds r not_string s h = h
    start_authorized-HasIds r (tag t) s h = elim (Option-cases s.current_transaction) [
      | inl e ↦
          rw (e, start_authorized, start_transaction)
            (move_to-HasIds charging _ (
              notify_transaction-HasIds "Started" _ _ _ _ _
                (record { evse = h.evse; connector = h.connector })))
      | inr (u, e) ↦ rw (e, start_authorized, start_transaction) h
    ]

    stop_transaction-HasIds :
        (r : Readings p) (reason : String) (s : Evse p)
        → HasIds i j s
        → HasIds i j (stop_transaction r reason s).0
    unfolding stop_transaction notify_transaction
    stop_transaction-HasIds r reason s h = record {
      evse = ground (arith, h.evse);
      connector = ground (arith, h.connector);
    }

    stop_with-HasIds :
        (r : Readings p) (reason : String) (s : Evse p)
        → HasIds i j s
        → HasIds i j (stop_with r reason s).0
    unfolding stop_with
    stop_with-HasIds r reason s h =
        let k = stop_transaction-HasIds r reason s h in
        let m = move_to-HasIds finishing (stop_transaction r reason s).0 k in
        record {
          evse = ground (arith, k.evse, m.evse);
          connector = ground (arith, k.connector, m.connector);
        }

    stop_authorized-HasIds :
        (r : Readings p) (d : IdTag) (s : Evse p)
        → HasIds i j s
        → HasIds i j (stop_authorized r d s).0
    unfolding stop_authorized
    stop_authorized-HasIds r missing s h = h
    stop_authorized-HasIds r _ s h = stop_with-HasIds r "DeAuthorized" s h

    fault_with_transaction-HasIds :
        (r : Readings p) (s : Evse p) → HasIds i j s → HasIds i j (fault_with_transaction r s).0
    unfolding fault_with_transaction
    fault_with_transaction-HasIds r s h =
        move_to-HasIds EvseState.faulted _ (stop_transaction-HasIds r "Faulted" s h)

    Effect-HasIds :
        (e : EvseEvent) (r : Readings p) (d : IdTag) (s : Evse p) (x : Evse p × Reply)
        → HasIds i j s
        → Effect s.current_state e r d s x
        → HasIds i j x.0
    Effect-HasIds e r d s x h (refuses n q) = rw q h
    Effect-HasIds e r d s x h (moves new g t q) = rw q (move_to-HasIds new s h)
    Effect-HasIds e r d s x h (starts _ _ q) = rw q (start_authorized-HasIds r d s h)
    Effect-HasIds e r d s x h (stops _ _ q) = rw q (stop_with-HasIds r "Local" s h)
    Effect-HasIds e r d s x h (stops_authorized _ _ q) = rw q (stop_authorized-HasIds r d s h)
    Effect-HasIds e r d s x h (faults _ _ q) = rw q (fault_with_transaction-HasIds r s h)

    process_event-HasIds :
        (e : EvseEvent) (r : Readings p) (d : IdTag) (s : Evse p)
        → HasIds i j s
        → HasIds i j (process_event e r d s).0
    unfolding process_event
    process_event-HasIds e r d s h =
        Effect-HasIds e r d s _ h (dispatch-Effect s.current_state e r d s)

    sample_meter-HasIds :
        (r : Readings p) (s : Evse p) → HasIds i j s → HasIds i j (sample_meter r s)
    unfolding sample_meter add_meter_value notify_transaction call
    sample_meter-HasIds r s h = elim (Option-cases (meter_reading s)) [
      | inl e ↦ rw (e, sample_meter) h
      | inr (x, e) ↦ record {
        evse = rw (e, sample_meter) (ground (arith, h.evse));
        connector = rw (e, sample_meter) (ground (arith, h.connector));
      }
    ]

    on_meter_value_timer-HasIds :
        (c : Completion) (r : Readings p) (s : Evse p)
        → HasIds i j s
        → HasIds i j (on_meter_value_timer c r s)
    unfolding on_meter_value_timer
    on_meter_value_timer-HasIds Completion.expired r s h =
        let w : Evse p = record s { meter_armed = false } in
        let k = sample_meter-HasIds r w (record { evse = h.evse; connector = h.connector }) in
        record {
          evse = ground (arith, h.evse, k.evse);
          connector = ground (arith, h.connector, k.connector);
        }
    on_meter_value_timer-HasIds aborted r s h = h
    on_meter_value_timer-HasIds failed r s h = record { evse = h.evse; connector = h.connector }

    pub step-HasIds : (s : Evse p) (a : Action p) → HasIds i j s → HasIds i j (step s a)
    unfolding step on_heartbeat_timer start_heartbeat stop_heartbeat start_meter_value_timer
        stop_meter_value_timer set_variable
    step-HasIds s (handles e r d) h = process_event-HasIds e r d s h
    step-HasIds s (heartbeat_due Completion.expired) h = record {
      evse = h.evse;
      connector = h.connector;
    }
    step-HasIds s (heartbeat_due aborted) h = h
    step-HasIds s (heartbeat_due failed) h = record { evse = h.evse; connector = h.connector }
    step-HasIds s (meter_due c r) h = on_meter_value_timer-HasIds c r s h
    step-HasIds s (starts_heartbeat n) h = record { evse = h.evse; connector = h.connector }
    step-HasIds s (starts_meter n) h = record { evse = h.evse; connector = h.connector }
    step-HasIds s stops_heartbeat h = record { evse = h.evse; connector = h.connector }
    step-HasIds s stops_meter h = record { evse = h.evse; connector = h.connector }
    step-HasIds s (sets a b c d e f) h = record { evse = h.evse; connector = h.connector }
