-- ===== src/Echonet/Frame.antt =====
-- `EchonetLiteFrame`: the record, its factories, `serialize` and `deserialize`. A `uint8_t` is a
-- number below 256 and a `uint16_t` one below 65536.
use mathlib.Core.Option
use ocpp_gw.Base.{
  ℕ, zero, suc, ◌+◌, ◌*◌, ◌/◌, ◌%◌, not, ◌&&◌, ◌||◌, Option, none, some, List, [], ◌∷◌, ◌++◌, ltb,
  ◌==◌, if◌then◌else◌, length, get_or, drop, take, map,
}

pub record Property : Type 0 where
  pub epc : ℕ
  pub pdc : ℕ
  pub edt : List ℕ

pub record Frame : Type 0 where
  pub ehd1 : ℕ
  pub ehd2 : ℕ
  pub tid : ℕ
  pub seoj_class_group_code : ℕ
  pub seoj_class_code : ℕ
  pub seoj_instance_code : ℕ
  pub deoj_class_group_code : ℕ
  pub deoj_class_code : ℕ
  pub deoj_instance_code : ℕ
  pub esv : ℕ
  pub opc : ℕ
  pub properties : List Property

-- The default member initialisers.
abbrev pub default_frame : Frame
default_frame = record {
  ehd1 = 0x10;
  ehd2 = 0x81;
  tid = 0;
  seoj_class_group_code = 0x05;
  seoj_class_code = 0xFF;
  seoj_instance_code = 0x01;
  deoj_class_group_code = 0x00;
  deoj_class_code = 0x00;
  deoj_instance_code = 0x00;
  esv = 0x00;
  opc = 0x00;
  properties = [];
}

abbrev pub esv_get_request : ℕ
esv_get_request = 0x62

abbrev pub esv_get_response : ℕ
esv_get_response = 0x72

abbrev pub esv_set_request : ℕ
esv_set_request = 0x61

abbrev pub esv_set_response : ℕ
esv_set_response = 0x71

abbrev pub esv_get_sna : ℕ
esv_get_sna = 0x52

abbrev pub esv_set_sna : ℕ
esv_set_sna = 0x51

-- The loop of `serialize` over the properties.
unfoldable pub serialize_properties : List Property → List ℕ
serialize_properties [] = []
serialize_properties (p ∷ ps) = p.epc ∷ p.pdc ∷ (p.edt ++ serialize_properties ps)

unfoldable pub serialize : Frame → List ℕ
serialize f =
    f.ehd1
    ∷ f.ehd2
    ∷ (f.tid / 256 % 256)
    ∷ (f.tid % 256)
    ∷ f.seoj_class_group_code
    ∷ f.seoj_class_code
    ∷ f.seoj_instance_code
    ∷ f.deoj_class_group_code
    ∷ f.deoj_class_code
    ∷ f.deoj_instance_code
    ∷ f.esv
    ∷ (length f.properties % 256)
    ∷ serialize_properties f.properties

-- The loop of `deserialize`: so many properties from the bytes that are left.
unfoldable pub deserialize_properties : ℕ → List ℕ → Option (List Property)
deserialize_properties zero data' = some []
deserialize_properties (suc n) (epc ∷ pdc ∷ more) =
    let rest = deserialize_properties n (drop pdc more) in
    if ltb (length more) pdc
    then none
    else Option.map (λ ps. record { epc = epc; pdc = pdc; edt = take pdc more } ∷ ps) rest
deserialize_properties (suc n) _ = none

-- The fields before the properties, at their positions; `(a << 8) | b` on two bytes is a sum.
abbrev pub read_header : List ℕ → Frame
read_header bytes = record {
  ehd1 = get_or bytes 0 0;
  ehd2 = get_or bytes 1 0;
  tid = get_or bytes 2 0 * 256 + get_or bytes 3 0;
  seoj_class_group_code = get_or bytes 4 0;
  seoj_class_code = get_or bytes 5 0;
  seoj_instance_code = get_or bytes 6 0;
  deoj_class_group_code = get_or bytes 7 0;
  deoj_class_code = get_or bytes 8 0;
  deoj_instance_code = get_or bytes 9 0;
  esv = get_or bytes 10 0;
  opc = get_or bytes 11 0;
  properties = [];
}

unfoldable pub deserialize : List ℕ → Option Frame
deserialize bytes =
    let frame = read_header bytes in
    if ltb (length bytes) 12
    then none
    else if not (frame.ehd1 == 0x10) || (not (frame.ehd2 == 0x81) && not (frame.ehd2 == 0x82))
    then none
    else Option.map (λ ps. record frame { properties = ps })
        (deserialize_properties frame.opc (drop 12 bytes))

unfoldable pub create_get_property_frame : ℕ → ℕ → ℕ → List ℕ → Frame
create_get_property_frame group class instance epcs = record default_frame {
  deoj_class_group_code = group;
  deoj_class_code = class;
  deoj_instance_code = instance;
  esv = esv_get_request;
  properties = map (λ epc. record { epc = epc; pdc = 0; edt = [] }) epcs;
}

unfoldable pub create_set_property_frame : ℕ → ℕ → ℕ → ℕ → List ℕ → Frame
create_set_property_frame group class instance epc edt = record default_frame {
  deoj_class_group_code = group;
  deoj_class_code = class;
  deoj_instance_code = instance;
  esv = esv_set_request;
  properties = record { epc = epc; pdc = length edt % 256; edt = edt } ∷ [];
}

unfoldable pub create_discovery_frame : Frame
unfolding create_get_property_frame
create_discovery_frame = create_get_property_frame 0x0E 0xF0 0x01 (0xD6 ∷ [])
