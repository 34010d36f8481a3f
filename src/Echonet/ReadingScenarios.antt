-- ===== src/Echonet/ReadingScenarios.antt =====
-- Reading and writing a property of a charger at concrete inputs.
use ocpp_gw.Base.{true, some, [], ◌∷◌}
use ocpp_gw.Device.Types.{
  echonet_lite, epc, binary, DeviceInfo, RegisterAddress, RegisterValue, echonet_lite_address,
}
use ocpp_gw.Device.Adapter.{create}
use ocpp_gw.Echonet.Frame.{Property, Frame, default_frame}
use ocpp_gw.Echonet.Registers.{Station}

abbrev charger : DeviceInfo
charger = record {
  id = "ev1";
  name = "charger";
  model = "m";
  manufacturer = "x";
  firmware_version = "1";
  protocol = echonet_lite;
  address = some (echonet_lite_address "10.0.0.2" 3610);
  template_id = "t";
  online = true;
  last_seen = 0;
}

abbrev station : Station
station = record {
  adapter = record (create echonet_lite) { running = true; devices = ("ev1", charger) ∷ [] };
  next_tid = 1;
  exchange = record { pending = []; answers = [] };
}

abbrev mode : RegisterAddress
mode = record {
  type = epc;
  address = 0;
  eoj_class_group_code = 0x02;
  eoj_class_code = 0xA1;
  eoj_instance_code = 1;
  epc = 0xDA;
  count = 1;
}

abbrev charging_mode : Property
charging_mode = record { epc = 0xDA; pdc = 1; edt = 0x42 ∷ [] }

abbrev status : Property
status = record { epc = 0x80; pdc = 1; edt = 0x30 ∷ [] }

-- The same code a second time.
abbrev again : Property
again = record { epc = 0xDA; pdc = 1; edt = 0x43 ∷ [] }

abbrev got : Frame
got = record default_frame {
  tid = 1;
  esv = 0x72;
  opc = 3;
  properties = status ∷ charging_mode ∷ again ∷ [];
}

abbrev was_set : Frame
was_set = record default_frame { tid = 1; esv = 0x71; opc = 1; properties = charging_mode ∷ [] }

abbrev wanted : RegisterValue
wanted = record { type = binary; bytes = 0x42 ∷ [] }
