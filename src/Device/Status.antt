-- ===== src/Device/Status.antt =====
-- What a status report does to the table of devices, and whom it calls.
use ocpp_gw.Base.{
  append-nil, sym, ◌≢◌, ℕ, String, ◌≡◌, refl, inl, inr, Bool, true, false, ◌&&◌, none, some,
  Option-cases, List, [], ◌∷◌, ◌++◌, is_some, if◌then◌else◌, arith, eq_iff,
}
use ocpp_gw.Base.Dict.{lookup, lookup-insert}
use ocpp_gw.Device.Types.{DeviceInfo}
use ocpp_gw.Device.Adapter.{
  Adapter, notify, update, update_device_status, with_status, online_of, is_device_online, same,
}
use ocpp_gw.Device.Sound.{notify_keeps, with_new_status}

-- The call that a status report makes.
abbrev pub called : String → Bool → Adapter → List (String × Bool)
called id online s = elim (lookup id s.devices) [
  | none ↦ []
  | some d ↦
      if same d.online online
      then []
      else elim (lookup id s.status_callbacks) [ some true ↦ (id, online) ∷ [] | _ ↦ [] ]
]

update-online :
    (id : String) (online : Bool) (now : ℕ) (d : DeviceInfo) (s : Adapter)
    → lookup id s.devices ≡ some d
    → online_of (lookup id (update id online now (some d) s).devices) ≡ online
update-online id online now d s q = ground (
  arith,
  notify_keeps id online (with_new_status id online now d s),
  lookup-insert id id (with_status online now d) s.devices,
  eq_iff id id,
)

update_elsewhere :
    (id k : String) (online : Bool) (now : ℕ) (d : DeviceInfo) (s : Adapter)
    → k ≢ id
    → lookup k (update id online now (some d) s).devices ≡ lookup k s.devices
update_elsewhere id k online now d s n = ground (
  arith,
  notify_keeps id online (with_new_status id online now d s),
  lookup-insert id k (with_status online now d) s.devices,
  eq_iff id k,
)

update-calls :
    (id : String) (online : Bool) (now : ℕ) (d : DeviceInfo) (s : Adapter)
    → lookup id s.devices ≡ some d
    → (update id online now (some d) s).calls ≡ s.calls ++ called id online s
unfolding notify
update-calls id online now d s q = ground (arith, append-nil s.calls)

-- A status report for a device leaves the device with that status if it is known, and changes no other
-- device's; its callback is called, with the new status, exactly if the status changes and a callable
-- function is registered.
pub update_device_status_lem :
    (id : String) (online : Bool) (now : ℕ) (s : Adapter)
    → s.devices_locked ≡ false
    → (s' : Adapter) × ((update_device_status id online now s ≡ some s')
        × ((is_device_online id s' ≡ (is_some (lookup id s.devices) && online))
            × (((k : String) → k ≢ id → lookup k s'.devices ≡ lookup k s.devices)
                × (s'.calls ≡ s.calls ++ called id online s))))
unfolding update_device_status is_device_online notify
update_device_status_lem id online now s h = elim (Option-cases (lookup id s.devices)) [
  | inl q ↦
      (s, (rw (h, q) refl, (rw q refl, (λ k n. refl, rw (q, called) (sym (append-nil s.calls))))))
  | inr (d, q) ↦ (
    update id online now (some d) s,
    (
      rw (h, q) refl,
      (
        rw q (update-online id online now d s q),
        (λ k n. update_elsewhere id k online now d s n, update-calls id online now d s q),
      ),
    ),
  )
]
