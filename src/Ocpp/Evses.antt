-- ===== src/Ocpp/Evses.antt =====
-- The table of state machines in `OcppClientManager`: `addEvse`, `removeEvse`, `processEvseEvent`.
use ocpp_gw.Base.{
  ℕ, ℤ, Bool, true, false, ◌&&◌, Option, none, some, is_some, List, map, [], ◌∷◌, ◌++◌, int_eq,
  if◌then◌else◌,
}
use ocpp_gw.Evse.Types.{
  EvseEvent, Platform, Evse, Readings, IdTag, Reply, refused, Output, status_change,
}
use ocpp_gw.Evse.Machine.{process_event}
use ocpp_gw.Evse.Connector.{
  connector_status_to_string, create, set_status_change_callback, set_meter_value_callback,
  set_transaction_event_callback, start_heartbeat, stop_heartbeat, stop_meter_value_timer,
}

-- Machines that were removed live on while a timer that they armed refers to them.
pub record EvseTable (p : Platform) : Type 0 where
  pub machines : List (Evse p)
  pub removed : List (Evse p)

module _ {p : Platform} where
  abbrev pub has_ids : ℤ → ℤ → Evse p → Bool
  has_ids evse_id connector_id s = int_eq s.evse_id evse_id && int_eq s.connector_id connector_id

  -- `find_if`
  unfoldable pub find : ℤ → ℤ → List (Evse p) → Option (Evse p)
  find evse_id connector_id [] = none
  find evse_id connector_id (s ∷ ss) =
      if has_ids evse_id connector_id s then some s else find evse_id connector_id ss

  abbrev pub get_evse_state_machine : ℤ → ℤ → EvseTable p → Option (Evse p)
  get_evse_state_machine evse_id connector_id t = find evse_id connector_id t.machines

  -- The machine that `addEvse` makes, with its callbacks and its heartbeat.
  unfoldable pub made_evse : ℤ → ℤ → ℕ → Evse p
  made_evse evse_id connector_id interval = start_heartbeat interval (
      set_transaction_event_callback
        (set_meter_value_callback (set_status_change_callback (create evse_id connector_id))))

  -- The status notification that it sends; `none` where it returns false.
  unfoldable pub add_evse : ℤ → ℤ → ℕ → EvseTable p → Option (Output p) × EvseTable p
  add_evse evse_id connector_id interval t =
      let s = made_evse evse_id connector_id interval in
      if is_some (get_evse_state_machine evse_id connector_id t) then (none, t) else (
        some (status_change connector_id "NoError" (connector_status_to_string s.connector_status)),
        record t { machines = t.machines ++ s ∷ [] },
      )

  -- `erase` of the first machine with the identifiers.
  unfoldable pub erase : ℤ → ℤ → List (Evse p) → List (Evse p)
  erase evse_id connector_id [] = []
  erase evse_id connector_id (s ∷ ss) =
      let rest = erase evse_id connector_id ss in
      if has_ids evse_id connector_id s then ss else s ∷ rest

  unfoldable pub remove_evse : ℤ → ℤ → EvseTable p → Bool × EvseTable p
  remove_evse evse_id connector_id t = elim (get_evse_state_machine evse_id connector_id t) [
    | none ↦ (false, t)
    | some s ↦ (
      true,
      record t {
        machines = erase evse_id connector_id t.machines;
        removed = stop_heartbeat s ∷ t.removed;
      },
    )
  ]

  -- The first machine with the identifiers, replaced.
  unfoldable pub replace : ℤ → ℤ → (Evse p → Evse p) → List (Evse p) → List (Evse p)
  replace evse_id connector_id f [] = []
  replace evse_id connector_id f (s ∷ ss) =
      let rest = replace evse_id connector_id f ss in
      if has_ids evse_id connector_id s then f s ∷ ss else s ∷ rest

  unfoldable pub process_evse_event :
      ℤ → ℤ → EvseEvent → Readings p → IdTag → EvseTable p → EvseTable p × Reply
  process_evse_event evse_id connector_id e r d t =
      elim (get_evse_state_machine evse_id connector_id t) [
        | none ↦ (t, refused)
        | some s ↦ (
          record t {
            machines = replace evse_id connector_id (λ x. (process_event e r d x).0) t.machines;
          },
          (process_event e r d s).1,
        )
      ]

  -- What `stop` does to the machines.
  unfoldable pub stop_evses : EvseTable p → EvseTable p
  stop_evses t = record t {
    machines = [];
    removed = map (λ s. stop_meter_value_timer (stop_heartbeat s)) t.machines ++ t.removed;
  }
