-- ===== src/Evse/Invariant.antt =====
-- The invariant of the machine, and that every operation keeps it.
use ocpp_gw.Base.{
  ℤ, ◌≡◌, refl, sym, ◌∙◌, inl, inr, String, false, Option, none, some, is_some, Option-cases, List,
  [], ◌∷◌, arith,
}
use ocpp_gw.Evse.Types.{
  EvseState, charging, finishing, EvseEvent, Platform, active, Transaction, Evse, Readings, IdTag,
  missing, not_string, tag, Reply, Completion, aborted, failed,
}
use ocpp_gw.Evse.Machine.{
  notify_transaction, start_transaction, stop_transaction, meter_reading, sample_meter,
  add_meter_value, move_to, start_authorized, stop_with, stop_authorized, fault_with_transaction,
  process_event, on_heartbeat_timer, on_meter_value_timer,
}
use ocpp_gw.Evse.Connector.{
  status_of, create, set_variable, start_heartbeat, stop_heartbeat, start_meter_value_timer,
  stop_meter_value_timer, handle_state_transition, call,
}
use ocpp_gw.Evse.Actions.{Action, handles, heartbeat_due, meter_due, step, run}
use ocpp_gw.Evse.Diagram.{
  in_transaction, Effect, refuses, moves, starts, stops, stops_authorized, faults, dispatch-Effect,
}

-- A transaction in progress is active and has no stop time.
abbrev pub IsOpen : {p : Platform} → Option (Transaction p) → Type 0
IsOpen none = Unit
IsOpen (some t) = (t.status ≡ active) × (t.stop_time ≡ none)

module _ {p : Platform} where
  pub record IsConsistent (s : Evse p) : Type 0 where
    pub status_follows : s.connector_status ≡ status_of s.current_state
    pub transaction_follows : is_some s.current_transaction ≡ in_transaction s.current_state
    pub transaction_open : IsOpen s.current_transaction

  pub create-IsConsistent : (evse_id connector_id : ℤ) → IsConsistent (create evse_id connector_id)
  unfolding create
  create-IsConsistent evse_id connector_id = ground arith

  move_to-IsConsistent :
      (new : EvseState) (s : Evse p)
      → is_some s.current_transaction ≡ in_transaction new
      → IsOpen s.current_transaction
      → IsConsistent (move_to new s).0
  unfolding move_to handle_state_transition
  move_to-IsConsistent new s h o = ground arith

  start_authorized-IsConsistent :
      (r : Readings p) (d : IdTag) (s : Evse p)
      → IsConsistent s
      → IsConsistent (start_authorized r d s).0
  unfolding start_authorized start_transaction notify_transaction
  start_authorized-IsConsistent r missing s v = v
  start_authorized-IsConsistent r not_string s v = v
  start_authorized-IsConsistent r (tag t) s v = elim (Option-cases s.current_transaction) [
    | inl e ↦
        rw (e, start_authorized, start_transaction)
          (move_to-IsConsistent charging _ (ground arith) (ground arith))
    | inr (u, e) ↦ rw (e, start_authorized, start_transaction) v
  ]

  stop_transaction-none :
      (r : Readings p) (reason : String) (s : Evse p)
      → (stop_transaction r reason s).0.current_transaction ≡ none
  unfolding stop_transaction
  stop_transaction-none r reason s = ground arith

  stop_with-IsConsistent :
      (r : Readings p) (reason : String) (s : Evse p)
      → IsConsistent s
      → IsConsistent (stop_with r reason s).0
  unfolding stop_with stop_transaction
  stop_with-IsConsistent r reason s v = elim (Option-cases s.current_transaction) [
    | inl e ↦ rw (e, stop_with, stop_transaction) v
    | inr (u, e) ↦ rw (e, stop_with, stop_transaction) (move_to-IsConsistent finishing _ refl tt)
  ]

  fault_with_transaction-IsConsistent :
      (r : Readings p) (s : Evse p) → IsConsistent (fault_with_transaction r s).0
  unfolding fault_with_transaction
  fault_with_transaction-IsConsistent r s =
      move_to-IsConsistent EvseState.faulted _ (rw (stop_transaction-none r "Faulted" s))
        (rw (stop_transaction-none r "Faulted" s) tt)

  stop_authorized-IsConsistent :
      (r : Readings p) (d : IdTag) (s : Evse p)
      → IsConsistent s
      → IsConsistent (stop_authorized r d s).0
  unfolding stop_authorized
  stop_authorized-IsConsistent r missing s v = v
  stop_authorized-IsConsistent r _ s v = stop_with-IsConsistent r "DeAuthorized" s v

  Effect-IsConsistent :
      (e : EvseEvent) (r : Readings p) (d : IdTag) (s : Evse p) (x : Evse p × Reply)
      → IsConsistent s
      → Effect s.current_state e r d s x
      → IsConsistent x.0
  Effect-IsConsistent e r d s x v (refuses n q) = rw q v
  Effect-IsConsistent e r d s x v (moves new g t q) =
      rw q (move_to-IsConsistent new s (v.transaction_follows ∙ sym t) v.transaction_open)
  Effect-IsConsistent e r d s x v (starts _ _ q) = rw q (start_authorized-IsConsistent r d s v)
  Effect-IsConsistent e r d s x v (stops _ _ q) = rw q (stop_with-IsConsistent r "Local" s v)
  Effect-IsConsistent e r d s x v (stops_authorized _ _ q) =
      rw q (stop_authorized-IsConsistent r d s v)
  Effect-IsConsistent e r d s x v (faults _ _ q) = rw q (fault_with_transaction-IsConsistent r s)

  pub process_event-IsConsistent :
      (e : EvseEvent) (r : Readings p) (d : IdTag) (s : Evse p)
      → IsConsistent s
      → IsConsistent (process_event e r d s).0
  unfolding process_event
  process_event-IsConsistent e r d s v =
      Effect-IsConsistent e r d s _ v (dispatch-Effect s.current_state e r d s)

  add_meter_value-IsConsistent :
      (r : Readings p) (x : p.Double) (s : Evse p)
      → IsConsistent s
      → IsConsistent (add_meter_value r x s)
  unfolding add_meter_value notify_transaction call
  add_meter_value-IsConsistent r x s v = ground arith

  sample_meter-IsConsistent :
      (r : Readings p) (s : Evse p) → IsConsistent s → IsConsistent (sample_meter r s)
  unfolding sample_meter
  sample_meter-IsConsistent r s v = elim (Option-cases (meter_reading s)) [
    | inl e ↦ rw (e, sample_meter) v
    | inr (x, e) ↦ rw (e, sample_meter) (add_meter_value-IsConsistent r x s v)
  ]

  on_meter_value_timer-IsConsistent :
      (c : Completion) (r : Readings p) (s : Evse p)
      → IsConsistent s
      → IsConsistent (on_meter_value_timer c r s)
  unfolding on_meter_value_timer
  on_meter_value_timer-IsConsistent Completion.expired r s v =
      ground (arith, sample_meter-IsConsistent r (record s { meter_armed = false }))
  on_meter_value_timer-IsConsistent aborted r s v = v
  on_meter_value_timer-IsConsistent failed r s v = ground arith

  pub step-IsConsistent : (s : Evse p) (a : Action p) → IsConsistent s → IsConsistent (step s a)
  unfolding step
  step-IsConsistent s (handles e r d) v = process_event-IsConsistent e r d s v
  step-IsConsistent s (meter_due c r) v = on_meter_value_timer-IsConsistent c r s v
  step-IsConsistent s (heartbeat_due Completion.expired) v =
      unfold on_heartbeat_timer in ground arith
  step-IsConsistent s (heartbeat_due _) v = unfold on_heartbeat_timer in ground arith
  step-IsConsistent s _ v =
      unfold start_heartbeat stop_heartbeat start_meter_value_timer stop_meter_value_timer
        set_variable in
      ground arith

  -- A consistent machine, whose connector status is that of its state and which has a transaction, active and
  -- not stopped, in the states CHARGING and SUSPENDED alone, is consistent after any sequence of actions.
  pub run-IsConsistent :
      (s : Evse p) (as' : List (Action p)) → IsConsistent s → IsConsistent (run s as')
  unfolding run
  run-IsConsistent s [] v = v
  run-IsConsistent s (a ∷ as') v = run-IsConsistent (step s a) as' (step-IsConsistent s a v)
