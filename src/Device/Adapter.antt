-- ===== src/Device/Adapter.antt =====
-- `BaseDeviceAdapter`: the devices it knows, the callbacks on their status, and the mutex that guards
-- them. The pure virtual and overridden methods that the base class calls are arguments. `none` is a
-- thread that waits for a mutex which it holds itself: `std::mutex` is not recursive. The mutex on the
-- callbacks is free after each operation; a callback that calls the adapter back while it is held is not
-- modelled.
use ocpp_gw.Base.{
  ℕ, String, Bool, true, false, not, Option, none, some, List, [], ◌∷◌, ◌++◌, is_some,
  if◌then◌else◌,
}
use ocpp_gw.Base.Dict.{Dict, lookup, insert, erase, values}
use ocpp_gw.Device.Types.{
  DeviceProtocol, echonet_lite, modbus_rtu, modbus_tcp, RegisterType, coil, discrete_input,
  input_register, holding_register, epc, DeviceInfo,
}

-- `status_callbacks` tells of each function whether it can be called, and `calls` is the log of the
-- calls made, in their order.
pub record Adapter : Type 0 where
  pub protocol : DeviceProtocol
  pub running : Bool
  pub devices : Dict DeviceInfo
  pub status_callbacks : Dict Bool
  pub devices_locked : Bool
  pub calls : List (String × Bool)

unfoldable pub create : DeviceProtocol → Adapter
create protocol = record {
  protocol = protocol;
  running = false;
  devices = [];
  status_callbacks = [];
  devices_locked = false;
  calls = [];
}

unfoldable pub start : Adapter → Adapter × Bool
start s = if s.running then (s, true) else (record s { running = true }, true)

-- The base class's `validateDeviceAddress`.
unfoldable pub validate_device_address : DeviceInfo → Bool
validate_device_address d = is_some d.address

unfoldable pub add_device : (DeviceInfo → Bool) → DeviceInfo → Adapter → Adapter × Bool
add_device validate d s =
    if not (validate d)
    then (s, false)
    else if is_some (lookup d.id s.devices)
    then (s, false)
    else (record s { devices = insert d.id d s.devices }, true)

unfoldable pub remove_device : String → Adapter → Adapter × Bool
remove_device id s =
    if is_some (lookup id s.devices)
    then (
      record s { status_callbacks = erase id s.status_callbacks; devices = erase id s.devices },
      true,
    )
    else (s, false)

unfoldable pub get_device_info : String → Adapter → Option DeviceInfo
get_device_info id s = lookup id s.devices

unfoldable pub get_all_devices : Adapter → List DeviceInfo
get_all_devices s = values s.devices

abbrev pub online_of : Option DeviceInfo → Bool
online_of none = false
online_of (some d) = d.online

unfoldable pub is_device_online : String → Adapter → Bool
is_device_online id s = online_of (lookup id s.devices)

-- `callback` tells whether the function can be called.
unfoldable pub set_device_status_callback : String → Bool → Adapter → Adapter × Bool
set_device_status_callback id callback s =
    if is_some (lookup id s.devices)
    then (record s { status_callbacks = insert id callback s.status_callbacks }, true)
    else (s, false)

-- `last_seen` is set when a device comes online only.
abbrev pub with_status : Bool → ℕ → DeviceInfo → DeviceInfo
with_status online now d =
    if online then record d { online = true; last_seen = now } else record d { online = false }

-- The call of the callback, if one is registered that can be called.
unfoldable pub notify : String → Bool → Adapter → Adapter
notify id online s = elim (lookup id s.status_callbacks) [
  | some true ↦ record s { calls = s.calls ++ ((id, online) ∷ []) }
  | _ ↦ s
]

abbrev pub same : Bool → Bool → Bool
same true b = b
same false b = not b

-- The part under the lock, and the call after it.
abbrev pub update : String → Bool → ℕ → Option DeviceInfo → Adapter → Adapter
update id online now none s = s
update id online now (some d) s =
    if same d.online online
    then s
    else notify id online (record s { devices = insert id (with_status online now d) s.devices })

unfoldable pub update_device_status : String → Bool → ℕ → Adapter → Option Adapter
update_device_status id online now s =
    if s.devices_locked then none else some (update id online now (lookup id s.devices) s)

-- The loop of `stop` over the devices, `devices_mutex_` being held: the device that is marked offline
-- first is reported by `updateDeviceStatus`, which takes the mutex again.
unfoldable pub mark_offline : Dict DeviceInfo → ℕ → Adapter → Option Adapter
mark_offline [] now s = some s
mark_offline ((id, d) ∷ rest) now s =
    let marked = record s { devices = insert id (record d { online = false }) s.devices } in
    if d.online
    then elim (update_device_status id false now marked) [
      | none ↦ none
      | some s' ↦ mark_offline rest now s'
    ]
    else mark_offline rest now s

unfoldable pub stop : (Adapter → Adapter) → ℕ → Adapter → Option Adapter
stop stop_discovery now s =
    let s' = stop_discovery s in
    if not s.running
    then some s
    else elim (mark_offline s'.devices now (record s' { devices_locked = true })) [
      | none ↦ none
      | some s'' ↦ some (record s'' { devices_locked = false; running = false })
    ]

-- The base class's `validateRegisterAddress`.
unfoldable pub supports : DeviceProtocol → RegisterType → Bool
supports echonet_lite epc = true
supports modbus_rtu coil = true
supports modbus_rtu discrete_input = true
supports modbus_rtu input_register = true
supports modbus_rtu holding_register = true
supports modbus_tcp coil = true
supports modbus_tcp discrete_input = true
supports modbus_tcp input_register = true
supports modbus_tcp holding_register = true
supports _ _ = false
