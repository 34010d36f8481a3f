-- ===== src/Ocpp/EvsesInvariant.antt =====
-- The table of state machines over a history: the machines keep apart, and each keeps its invariant.
use ocpp_gw.Base.{
  ℕ, ℤ, ◌≡◌, refl, sym, ap, ◌∙◌, subst, Bool, true, false, ◌&&◌, inl, inr, Option, Option-cases,
  none, some, is_some, List, [], ◌∷◌, ◌++◌, int_eq, if◌then◌else◌, All, All-append,
}
use mathlib.Core.Option.{map as option_map}
use ocpp_gw.Evse.Types.{
  EvseEvent, Platform, Evse, Readings, IdTag, Reply, refused, Output, status_change,
}
use ocpp_gw.Evse.Machine.{process_event}
use ocpp_gw.Evse.Connector.{
  create, set_status_change_callback, set_meter_value_callback, set_transaction_event_callback,
  start_heartbeat, stop_heartbeat, connector_status_to_string,
}
use ocpp_gw.Evse.Actions.{Action, handles, step}
use ocpp_gw.Evse.Invariant.{IsConsistent, create-IsConsistent, step-IsConsistent}
use ocpp_gw.Evse.Identity.{step-HasIds}
use ocpp_gw.Ocpp.Evses.{
  EvseTable, find, made_evse, add_evse, erase, remove_evse, replace, process_evse_event,
}
use ocpp_gw.Ocpp.EvsesTable.{
  IsDistinct, KeepsIds, append-IsDistinct, erase-IsDistinct, find-replace, replace-absent,
  replace-IsDistinct, All-replace, All-erase,
}

-- A call of the manager, or what a timer or the mapping of variables does to a machine of the table.
pub data TableEvent (p : Platform) : Type 0 where
  adding : ℤ → ℤ → ℕ → TableEvent p
  removing : ℤ → ℤ → TableEvent p
  processing : ℤ → ℤ → EvseEvent → Readings p → IdTag → TableEvent p
  acting : ℤ → ℤ → Action p → TableEvent p

module _ {p : Platform} where
  abbrev pub table_step : TableEvent p → EvseTable p → EvseTable p
  table_step (adding e c interval) t = (add_evse e c interval t).1
  table_step (removing e c) t = (remove_evse e c t).1
  table_step (processing e c event r d) t = (process_evse_event e c event r d t).0
  table_step (acting e c a) t = record t { machines = replace e c (λ s. step s a) t.machines }

  unfoldable pub table_run : List (TableEvent p) → EvseTable p → EvseTable p
  table_run [] t = t
  table_run (e ∷ es) t = table_run es (table_step e t)

  pub record IsSound (t : EvseTable p) : Type 0 where
    pub distinct : IsDistinct t.machines
    pub consistent : All IsConsistent t.machines

  made_evse-IsConsistent : (e c : ℤ) (n : ℕ) → IsConsistent (made_evse {p = p} e c n)
  unfolding made_evse start_heartbeat set_transaction_event_callback set_meter_value_callback
      set_status_change_callback
  made_evse-IsConsistent e c n =
      let k = create-IsConsistent {p = p} e c in
      record {
        status_follows = k.status_follows;
        transaction_follows = k.transaction_follows;
        transaction_open = k.transaction_open;
      }

  made_evse-absent :
      (e c : ℤ) (n : ℕ) (t : EvseTable p)
      → find e c t.machines ≡ none
      → let s = made_evse {p = p} e c n in find s.evse_id s.connector_id t.machines ≡ none
  unfolding made_evse start_heartbeat set_transaction_event_callback set_meter_value_callback
      set_status_change_callback create
  made_evse-absent e c n t h = h

  step-KeepsIds : (a : Action p) → KeepsIds (λ s. step s a)
  step-KeepsIds a s = step-HasIds s a (record { evse = refl; connector = refl })

  acting-IsSound :
      (e c : ℤ) (a : Action p) (t : EvseTable p)
      → IsSound t
      → IsSound (record t { machines = replace e c (λ s. step s a) t.machines })
  acting-IsSound e c a t k = record {
    distinct = replace-IsDistinct e c (λ s. step s a) t.machines (step-KeepsIds a) k.distinct;
    consistent =
        All-replace IsConsistent e c (λ s. step s a) t.machines (λ s v. step-IsConsistent s a v)
          k.consistent;
  }

  add_evse-IsSound : (e c : ℤ) (n : ℕ) (t : EvseTable p) → IsSound t → IsSound (add_evse e c n t).1
  unfolding add_evse
  add_evse-IsSound e c n t k =
      let s = made_evse e c n in
      let more : EvseTable p = record t { machines = t.machines ++ s ∷ [] } in
      let notice : Output p =
        status_change c "NoError" (connector_status_to_string s.connector_status) in
      let result : Option (Evse p) → Option (Output p) × EvseTable p =
        λ o. if is_some o then (none, t) else (some notice, more) in
      elim (Option-cases (find e c t.machines)) [
        | inl h ↦
            subst (λ o. IsSound (result o).1) (sym h)
              (record {
                distinct = append-IsDistinct t.machines s k.distinct (made_evse-absent e c n t h);
                consistent =
                    All-append IsConsistent t.machines (s ∷ []) k.consistent
                      (made_evse-IsConsistent e c n, tt);
              })
        | inr (x, h) ↦ subst (λ o. IsSound (result o).1) (sym h) k
      ]

  remove_evse-IsSound : (e c : ℤ) (t : EvseTable p) → IsSound t → IsSound (remove_evse e c t).1
  unfolding remove_evse
  remove_evse-IsSound e c t k =
      let less : Evse p → EvseTable p =
        λ s. record t { machines = erase e c t.machines; removed = stop_heartbeat s ∷ t.removed } in
      let result : Option (Evse p) → Bool × EvseTable p =
        λ o. elim o [ none ↦ (false, t) | some s ↦ (true, less s) ] in
      elim (find e c t.machines) as (λ o. IsSound (result o).1) [
        | none ↦ k
        | some s ↦ record {
          distinct = erase-IsDistinct e c t.machines k.distinct;
          consistent = All-erase IsConsistent e c t.machines k.consistent;
        }
      ]

  process_evse_event-IsSound :
      (e c : ℤ) (event : EvseEvent) (r : Readings p) (d : IdTag) (t : EvseTable p)
      → IsSound t
      → IsSound (process_evse_event e c event r d t).0
  unfolding process_evse_event step
  process_evse_event-IsSound e c event r d t k =
      let after = acting-IsSound e c (handles event r d) t k in
      let machines = replace e c (λ x. (process_event event r d x).0) t.machines in
      let result : Option (Evse p) → EvseTable p × Reply = λ o. elim o [
        | none ↦ (t, refused)
        | some s ↦ (record t { machines = machines }, (process_event event r d s).1)
      ] in
      elim (find e c t.machines) as (λ o. IsSound (result o).0) [
        | none ↦ k
        | some s ↦ record { distinct = after.distinct; consistent = after.consistent }
      ]

  table_step-IsSound : (e : TableEvent p) (t : EvseTable p) → IsSound t → IsSound (table_step e t)
  table_step-IsSound (adding e c interval) t k = add_evse-IsSound e c interval t k
  table_step-IsSound (removing e c) t k = remove_evse-IsSound e c t k
  table_step-IsSound (processing e c event r d) t k = process_evse_event-IsSound e c event r d t k
  table_step-IsSound (acting e c a) t k = acting-IsSound e c a t k

  -- Over every history of `addEvse`, `removeEvse`, `processEvseEvent`, timers and variables from a sound table,
  -- no two machines have the same identifiers, and each machine is consistent: its connector status is that of its
  -- state, and it has an open transaction just in the states with one.
  pub table_run-IsSound :
      (es : List (TableEvent p)) (t : EvseTable p) → IsSound t → IsSound (table_run es t)
  unfolding table_run
  table_run-IsSound [] t k = k
  table_run-IsSound (e ∷ es) t k = table_run-IsSound es (table_step e t) (table_step-IsSound e t k)

  -- `processEvseEvent` takes the machine with the identifiers, if there is one, through `processEvent`, returns
  -- its answer (or refuses), and leaves every other machine as it is.
  pub process_evse_event_lem :
      (e c i j : ℤ) (event : EvseEvent) (r : Readings p) (d : IdTag) (t : EvseTable p)
      → let x = process_evse_event e c event r d t in
        (find i j x.0.machines ≡ (
          if int_eq e i && int_eq c j
          then option_map (λ s. (process_event event r d s).0) (find i j t.machines)
          else find i j t.machines))
        × (x.1 ≡ (elim (find e c t.machines) [
          | none ↦ refused
          | some s ↦ (process_event event r d s).1
        ]))
  unfolding process_evse_event step
  process_evse_event_lem e c i j event r d t =
      let f : Evse p → Evse p = λ s. (process_event event r d s).0 in
      let machines = replace e c f t.machines in
      let result : Option (Evse p) → EvseTable p × Reply = λ o. elim o [
        | none ↦ (t, refused)
        | some s ↦ (record t { machines = machines }, (process_event event r d s).1)
      ] in
      let answer : Option (Evse p) → Reply =
        λ o. elim o [ none ↦ refused | some s ↦ (process_event event r d s).1 ] in
      let found = find-replace i j e c f t.machines (step-KeepsIds (handles event r d)) in
      elim (Option-cases (find e c t.machines)) [
        | inl h ↦ (
          ap (λ o. find i j (result o).0.machines) h
              ∙ ap (find i j) (sym (replace-absent e c f t.machines h))
              ∙ found,
          ap (λ o. (result o).1) h ∙ sym (ap answer h),
        )
        | inr (s, h) ↦ (
          ap (λ o. find i j (result o).0.machines) h ∙ found,
          ap (λ o. (result o).1) h ∙ sym (ap answer h),
        )
      ]
