-- ===== src/Device/Scenarios.antt =====
-- The theorems on values and devices at concrete inputs.
use ocpp_gw.Base.{◌≡◌, ◌↔◌, ◌⊎◌, refl, pos, true, false, none, some, List, [], ◌∷◌}
use ocpp_gw.Base.Dict.{lookup, insert}
use ocpp_gw.Device.Types.{DeviceInfo, modbus_tcp, modbus_tcp_address}
use ocpp_gw.Device.Adapter.{
  Adapter, create, start, add_device, update_device_status, notify, mark_offline,
  validate_device_address, stop,
}
use ocpp_gw.Device.Registry.{
  Operation, starts, adds, watches, updates, stops, removes, perform, run, run-IsRegistry, IsStuck,
  stop_blocks_iff,
}
use ocpp_gw.Device.Sound.{IsRegistry}
use ocpp_gw.Device.Status.{called}

abbrev charger : DeviceInfo
charger = record {
  id = "c1";
  name = "charger";
  model = "m";
  manufacturer = "x";
  firmware_version = "1";
  protocol = modbus_tcp;
  address = some (modbus_tcp_address "10.0.0.1" 502 (pos 1));
  template_id = "t";
  online = false;
  last_seen = 0;
}

-- Start, add a device, watch it, see it come online and go, stop, and lose it.
abbrev session : List Operation
session =
    starts
    ∷ adds charger
    ∷ watches "c1" true
    ∷ updates "c1" true 5
    ∷ updates "c1" false 6
    ∷ stops 7
    ∷ removes "c1"
    ∷ []

run-IsRegistry_example :
    ((s : Adapter) × ((run (λ s. s) validate_device_address session (create modbus_tcp) ≡ some s)
        × IsRegistry s))
    ⊎ ((run (λ s. s) validate_device_address session (create modbus_tcp) ≡ none)
        × IsStuck (λ s. s) validate_device_address session (create modbus_tcp))
run-IsRegistry_example =
    run-IsRegistry (λ s. s) validate_device_address (λ s w. w) modbus_tcp session

-- Stopped while the device is online, the session blocks.
session_blocks :
    run
      (λ s. s)
      validate_device_address
      (starts ∷ adds charger ∷ updates "c1" true 5 ∷ stops 7 ∷ [])
      (create modbus_tcp)
    ≡ none
unfolding run perform start add_device validate_device_address update_device_status notify stop
    mark_offline create lookup insert
session_blocks = refl

abbrev watched : Adapter
watched = record (create modbus_tcp) {
  running = true;
  devices = ("c1", charger) ∷ [];
  status_callbacks = ("c1", true) ∷ [];
}

the_call : called "c1" true watched ≡ ("c1", true) ∷ []
unfolding create lookup
the_call = refl

abbrev online_charger : Adapter
online_charger = record watched { devices = ("c1", record charger { online = true }) ∷ [] }

stop_blocks_iff_example : (stop (λ s. s) 9 online_charger ≡ none) ↔ ((true ≡ true) × (true ≡ true))
stop_blocks_iff_example = stop_blocks_iff (λ s. s) 9 online_charger

-- A running adapter with a device online never comes back from `stop`.
stop_blocks : stop (λ s. s) 9 online_charger ≡ none
unfolding stop create
stop_blocks = (stop_blocks_iff (λ s. s) 9 online_charger).1 (refl, refl)
