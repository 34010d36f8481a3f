-- ===== src/Config/Scenarios.antt =====
-- The configuration at concrete inputs.
use ocpp_gw.Base.{pos, ◌≡◌, ◌≢◌, ◌↔◌, refl, inl, true, none, some, List, [], ◌∷◌}
use ocpp_gw.Config.Types.{
  modbus_tcp, modbus_rtu, tcp, rtu, default_rtu, DeviceConfig, default_device, validate_tcp,
  validate_rtu, validate_connection, validate,
}
use ocpp_gw.Config.ToyDocuments.{Tree, end, word, field, item, trees, trees-IsDocuments}
use ocpp_gw.Config.Device
use ocpp_gw.Config.Collection
use ocpp_gw.Config.Validate.{GoodConnection, validate_iff}
use ocpp_gw.Config.RoundTrip.{load-save}
use ocpp_gw.Config.CollectionRoundTrip.{KeepsValid, load-KeepsValid, load-save_all}

abbrev charger : DeviceConfig
charger = record {
  id = "cp-1";
  template_id = "vendor";
  protocol = modbus_tcp;
  connection = tcp (record { ip = "10.0.0.7"; port = pos 502; unit_id = pos 1 });
  ocpp_id = "1";
}

abbrev serial : DeviceConfig
serial = record charger {
  id = "cp-2";
  protocol = modbus_rtu;
  connection = rtu (record default_rtu { port = "ttyS0" });
}

charger_valid : validate charger ≡ none
unfolding validate validate_connection validate_tcp
charger_valid = refl

serial_valid : validate serial ≡ none
unfolding validate validate_connection validate_rtu
serial_valid = refl

validate_iff_example : (validate charger ≡ none) ↔ (
    (charger.id ≢ "")
    × ((charger.template_id ≢ "")
        × ((charger.ocpp_id ≢ "") × GoodConnection charger.protocol charger.connection)))
validate_iff_example = validate_iff charger

load-save_example :
    ((text : Tree) × ((Device.save_to_yaml trees true charger ≡ some text)
        × ((Device.load_from_yaml trees (some text) default_device ≡ (charger, true))
            × (Device.load_from_yaml_string trees text default_device ≡ (charger, true)))))
    × ((text : Tree) × ((Device.save_to_json trees true charger ≡ some text)
          × ((Device.load_from_json trees (some text) default_device ≡ (charger, true))
              × (Device.load_from_json_string trees text default_device ≡ (charger, true)))))
load-save_example =
    load-save trees trees charger default_device trees-IsDocuments trees-IsDocuments charger_valid

abbrev two : List DeviceConfig
two = charger ∷ serial ∷ []

load-save_all_example :
    ((text : Tree) × ((Collection.save_to_yaml trees true two ≡ some text)
        × ((Collection.load_from_yaml trees (some text) [] ≡ (two, true))
            × (Collection.load_from_yaml_string trees text [] ≡ (two, true)))))
    × ((text : Tree) × ((Collection.save_to_json trees true two ≡ some text)
          × ((Collection.load_from_json trees (some text) [] ≡ (two, true))
              × (Collection.load_from_json_string trees text [] ≡ (two, true)))))
load-save_all_example =
    load-save_all trees trees two [] trees-IsDocuments trees-IsDocuments
      (charger_valid, (serial_valid, tt)) (inl (λ e. cc)) (inl (λ e. cc))

-- A list with one device that names no protocol.
abbrev broken : Tree
broken = field "devices" (item (field "id" (word "x") end) end) end

load-KeepsValid_example :
    KeepsValid two (Collection.load_from_yaml trees (some broken) two)
    × (KeepsValid two (Collection.load_from_yaml_string trees end two)
        × (KeepsValid two (Collection.load_from_json trees (some broken) two)
            × KeepsValid two (Collection.load_from_json_string trees end two)))
load-KeepsValid_example = load-KeepsValid trees (some broken) end two
