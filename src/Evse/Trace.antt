-- ===== src/Evse/Trace.antt =====
-- The transaction events that a machine sends, as a protocol: each transaction is announced by one
-- "Started" event numbered 0, followed by "Updated" events and one "Ended" event of the same
-- transaction, numbered without gaps; two transactions never overlap.
pub mod Operations
use ocpp_gw.Base.{
  ℕ, suc, ◌+◌, ℤ, ◌≡◌, refl, sym, ap, ◌∙◌, inl, inr, String, Bool, true, false, ◌&&◌, Option, none,
  some, is_some, Option-cases, List, [], ◌∷◌, ◌++◌, str_eq, eq_iff, ◌==◌, if◌then◌else◌, arith,
}
use ocpp_gw.Evse.Types.{
  EvseState, charging, finishing, EvseEvent, Platform, Transaction, Output, status_change,
  meter_value, transaction_event, Evse, Readings, IdTag, missing, not_string, tag, Reply,
  Completion, aborted, failed,
}
use ocpp_gw.Evse.Machine.{
  notify_transaction, start_transaction, stop_transaction, meter_reading, sample_meter,
  add_meter_value, move_to, start_authorized, stop_with, stop_authorized, fault_with_transaction,
  process_event, on_heartbeat_timer, on_meter_value_timer, reading_or_zero,
}
use ocpp_gw.Evse.Connector.{
  create, set_variable, set_status_change_callback, set_meter_value_callback,
  set_transaction_event_callback, start_heartbeat, stop_heartbeat, start_meter_value_timer,
  stop_meter_value_timer, call, switch_meter_timer, handle_state_transition,
}
use ocpp_gw.Evse.Actions.{Action, handles, heartbeat_due, meter_due, step, run}
use ocpp_gw.Evse.Diagram.{
  Effect, refuses, moves, starts, stops, stops_authorized, faults, dispatch-Effect,
}

-- Between transactions, or in one, with the number that its next event must have.
pub data Phase : Type 0 where
  idle : Phase
  opened : String → ℕ → Phase

-- What an observer makes of the next event; `none` where it breaks the protocol.
abbrev pub observe : Phase → String → ℕ → String → Option Phase
observe idle type seq id = if str_eq type "Started" && seq == 0 then some (opened id 1) else none
observe (opened open_id next) type seq id =
    if str_eq id open_id && seq == next
    then if str_eq type "Updated"
      then some (opened open_id (suc next))
      else if str_eq type "Ended"
      then some idle
      else none
    else none

module _ {p : Platform} where
  abbrev pub advance : Option Phase → Output p → Option Phase
  advance none o = none
  advance (some ph) (transaction_event type timestamp reason seq id evse value) =
      observe ph type seq id
  advance (some ph) _ = some ph

  unfoldable pub replay : Option Phase → List (Output p) → Option Phase
  replay ph [] = ph
  replay ph (o ∷ os) = replay (advance ph o) os

  pub replay-append :
      (ph : Option Phase) (xs ys : List (Output p))
      → replay ph (xs ++ ys) ≡ replay (replay ph xs) ys
  unfolding replay
  replay-append ph [] ys = refl
  replay-append ph (o ∷ os) ys = replay-append (advance ph o) os ys

  -- Where a machine stands in the protocol.
  abbrev pub phase_of : Option (Transaction p) → ℕ → Phase
  phase_of none n = idle
  phase_of (some t) n = opened t.id n

  -- The callback is set, and the events sent so far obey the protocol up to the present phase.
  pub record Follows (s : Evse p) : Type 0 where
    pub listening : s.has_transaction_callback ≡ true
    pub replayed :
        replay (some idle) s.outbox ≡ some (phase_of s.current_transaction s.transaction_seq_no)

  -- Sending one more event, at any outbox that has been followed up to a phase.
  pub replay-snoc :
      (xs : List (Output p)) (o : Output p) (ph next : Phase)
      → replay (some idle) xs ≡ some ph
      → advance (some ph) o ≡ some next
      → replay (some idle) (xs ++ (o ∷ [])) ≡ some next
  unfolding replay
  replay-snoc xs o ph next h k = rw (replay-append (some idle) xs (o ∷ []), h) k

  pub call-Follows :
      (present : Bool) (o : Output p) (s : Evse p)
      → ((ph : Phase) → advance (some ph) o ≡ some ph)
      → Follows s
      → Follows (call present o s)
  unfolding call
  call-Follows false o s same f = f
  call-Follows true o s same f = record {
    listening = f.listening;
    replayed = replay-snoc s.outbox o _ _ f.replayed (same _);
  }

  switch_meter_timer-Follows :
      (old new : EvseState) (s : Evse p) → Follows s → Follows (switch_meter_timer old new s)
  unfolding switch_meter_timer
  switch_meter_timer-Follows old new s f = ground arith

  pub handle_state_transition-Follows :
      (new : EvseState) (s : Evse p) → Follows s → Follows (handle_state_transition new s)
  unfolding handle_state_transition
  handle_state_transition-Follows new s f = switch_meter_timer-Follows s.current_state new _ (
      call-Follows s.has_status_callback _ _ (λ ph. refl)
        (record { listening = f.listening; replayed = f.replayed }))

  -- A transaction event with the next number takes the protocol on.
  pub notify_transaction_lem :
      (type timestamp reason id : String) (value : p.Double) (s : Evse p) (ph next : Phase)
      → s.has_transaction_callback ≡ true
      → replay (some idle) s.outbox ≡ some ph
      → observe ph type s.transaction_seq_no id ≡ some next
      → let s' = notify_transaction type timestamp reason id value s in
        (s'.has_transaction_callback ≡ true)
        × (replay (some idle) s'.outbox ≡ some next)
        × (s'.transaction_seq_no ≡ suc s.transaction_seq_no)
        × (s'.current_transaction ≡ s.current_transaction)
  unfolding notify_transaction
  notify_transaction_lem type timestamp reason id value s ph next c h k = rw c (
    refl,
    replay-snoc s.outbox
        (transaction_event type timestamp reason s.transaction_seq_no id s.evse_id value) ph next h
        k,
    refl,
    refl,
  )
