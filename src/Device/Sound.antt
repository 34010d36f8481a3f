-- ===== src/Device/Sound.antt =====
-- A sound table of devices, which the operations of the adapter keep.
use ocpp_gw.Base.{
  ℕ, String, ◌≡◌, inl, inr, Bool, true, false, Option, none, some, Option-cases, is_some, arith,
  eq_iff,
}
use ocpp_gw.Base.Dict.{lookup, insert, lookup-insert, lookup-erase}
use ocpp_gw.Device.Types.{DeviceProtocol, DeviceInfo}
use ocpp_gw.Device.Adapter.{
  Adapter, create, start, add_device, remove_device, set_device_status_callback, notify, update,
  with_status,
}

-- Every device stands under its own identifier, and every callback belongs to a device.
pub record IsRegistry (s : Adapter) : Type 0 where
  pub keyed : (k : String) (d : DeviceInfo) → lookup k s.devices ≡ some d → d.id ≡ k
  pub owned :
      (k : String)
      → is_some (lookup k s.status_callbacks) ≡ true
      → is_some (lookup k s.devices) ≡ true

pub create-IsRegistry : (protocol : DeviceProtocol) → IsRegistry (create protocol)
unfolding create lookup
create-IsRegistry protocol = record { keyed = λ k d h. ground arith; owned = λ k h. h }

pub add_device-IsRegistry :
    (validate : DeviceInfo → Bool) (d : DeviceInfo) (s : Adapter)
    → IsRegistry s
    → IsRegistry (add_device validate d s).0
unfolding add_device
add_device-IsRegistry validate d s w = record {
  keyed = λ k e h. ground (arith, w.keyed k e, lookup-insert d.id k d s.devices, eq_iff d.id k);
  owned = λ k h. ground (arith, w.owned k, lookup-insert d.id k d s.devices);
}

pub remove_device-IsRegistry :
    (id : String) (s : Adapter) → IsRegistry s → IsRegistry (remove_device id s).0
unfolding remove_device
remove_device-IsRegistry id s w = record {
  keyed = λ k e h. ground (arith, w.keyed k e, lookup-erase id k s.devices);
  owned = λ k h.
      ground (arith, w.owned k, lookup-erase id k s.devices, lookup-erase id k s.status_callbacks);
}

pub set_device_status_callback-IsRegistry :
    (id : String) (callback : Bool) (s : Adapter)
    → IsRegistry s
    → IsRegistry (set_device_status_callback id callback s).0
unfolding set_device_status_callback
set_device_status_callback-IsRegistry id callback s w = record {
  keyed = λ k e h. ground (arith, w.keyed k e);
  owned =
      λ k h. ground (arith, w.owned k, lookup-insert id k callback s.status_callbacks, eq_iff id k);
}

pub notify_keeps :
    (id : String) (online : Bool) (s : Adapter)
    → ((notify id online s).devices ≡ s.devices)
      × ((notify id online s).status_callbacks ≡ s.status_callbacks)
      × ((notify id online s).devices_locked ≡ s.devices_locked)
unfolding notify
notify_keeps id online s = ground arith

abbrev pub with_new_status : String → Bool → ℕ → DeviceInfo → Adapter → Adapter
with_new_status id online now d s = record s {
  devices = insert id (with_status online now d) s.devices;
}

with_status-id : (online : Bool) (now : ℕ) (d : DeviceInfo) → (with_status online now d).id ≡ d.id
with_status-id online now d = ground arith

pub update-IsRegistry :
    (id : String) (online : Bool) (now : ℕ) (s : Adapter)
    → IsRegistry s
    → IsRegistry (update id online now (lookup id s.devices) s)
update-IsRegistry id online now s w = elim (Option-cases (lookup id s.devices)) [
  | inl q ↦ rw q w
  | inr (d, q) ↦ rw q (record {
    keyed = λ k e h. ground (
      arith,
      w.keyed k e,
      w.keyed id d,
      with_status-id online now d,
      notify_keeps id online (with_new_status id online now d s),
      lookup-insert id k (with_status online now d) s.devices,
      eq_iff id k,
    );
    owned = λ k h. ground (
      arith,
      w.owned k,
      notify_keeps id online (with_new_status id online now d s),
      lookup-insert id k (with_status online now d) s.devices,
    );
  })
]

pub start-IsRegistry : (s : Adapter) → IsRegistry s → IsRegistry (start s).0
unfolding start
start-IsRegistry s w = record {
  keyed = λ k d h. ground (arith, w.keyed k d);
  owned = λ k h. ground (arith, w.owned k);
}

pub update_unlocked :
    (id : String) (online : Bool) (now : ℕ) (o : Option DeviceInfo) (s : Adapter)
    → s.devices_locked ≡ false
    → (update id online now o s).devices_locked ≡ false
update_unlocked id online now none s h = h
update_unlocked id online now (some d) s h =
    ground (arith, notify_keeps id online (with_new_status id online now d s))
