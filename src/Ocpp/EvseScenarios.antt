-- ===== src/Ocpp/EvseScenarios.antt =====
-- The table of state machines on a concrete history.
use ocpp_gw.Base.{ℕ, pos, ◌≡◌, none, some, List, [], ◌∷◌}
use ocpp_gw.Evse.Types.{plug_in, Platform, Readings, missing, refused}
use ocpp_gw.Evse.Machine.{process_event}
use ocpp_gw.Ocpp.Evses.{EvseTable, find, process_evse_event}
use ocpp_gw.Ocpp.EvsesInvariant.{
  TableEvent, adding, removing, processing, table_run, IsSound, table_run-IsSound,
  process_evse_event_lem,
}

-- Numbers for time points and readings.
abbrev toy : Platform
toy = record {
  Time = ℕ;
  Double = ℕ;
  zero_double = 0;
  mul = λ a b. a;
  stod = λ s. some 7;
  to_string = λ x. "7";
  iso8601 = λ t. "now";
}

abbrev readings : Readings toy
readings = record { now = 1; notified_at = 2; fresh_id = "T1" }

abbrev empty : EvseTable toy
empty = record { machines = []; removed = [] }

-- Two machines, one of them asked for twice; a vehicle at the first; the second removed.
abbrev history : List (TableEvent toy)
history =
    adding (pos 1) (pos 1) 300
    ∷ adding (pos 2) (pos 1) 300
    ∷ adding (pos 1) (pos 1) 300
    ∷ processing (pos 1) (pos 1) plug_in readings missing
    ∷ removing (pos 2) (pos 1)
    ∷ []

table_run-IsSound_example : IsSound (table_run history empty)
table_run-IsSound_example =
    table_run-IsSound history empty (record { distinct = tt; consistent = tt })

abbrev two : EvseTable toy
two = table_run (adding (pos 1) (pos 1) 300 ∷ adding (pos 2) (pos 1) 300 ∷ []) empty

process_evse_event_lem_example :
    let x = process_evse_event (pos 1) (pos 1) plug_in readings missing two in
    (find (pos 2) (pos 1) x.0.machines ≡ find (pos 2) (pos 1) two.machines)
    × (x.1 ≡ (elim (find (pos 1) (pos 1) two.machines) [
      | none ↦ refused
      | some s ↦ (process_event plug_in readings missing s).1
    ]))
process_evse_event_lem_example =
    process_evse_event_lem (pos 1) (pos 1) (pos 2) (pos 1) plug_in readings missing two
