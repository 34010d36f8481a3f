-- ===== src/Config/Device.antt =====
-- `DeviceConfig`: loading and saving. The YAML and the JSON members differ in the library alone.
use ocpp_gw.Base.{String, Bool, false, Option, none, some, is_some, not, if◌then◌else◌, [], ◌∷◌}
use ocpp_gw.Config.Types.{
  ProtocolType, modbus_tcp, modbus_rtu, echonet_lite, unknown, protocol_from_string,
  protocol_to_string, ModbusTcpConnectionConfig, ModbusRtuConnectionConfig,
  EchonetLiteConnectionConfig, ConnectionConfig, tcp, rtu, echonet, default_tcp, default_rtu,
  default_echonet, DeviceConfig, validate,
}
use ocpp_gw.Config.Documents.{Documents}

-- How the assignments to a device end: an exception, a protocol without a connection, or the end of the code.
pub data Ending : Type 0 where
  thrown refused complete : Ending

-- How a device becomes a node: `std::get` of another alternative throws.
pub data Saved {ℓ} (A : Type ℓ) : Type ℓ where
  failed : Saved A
  skipped : Saved A
  saved : A → Saved A

-- `if (node["key"]) { target = node["key"].as<...>(); }`: `none` is an exception.
abbrev pub optional {ℓ κ μ} :
    {N : Type ℓ} {A : Type κ} {S : Type μ}
    → Option (Option N)
    → (N → Option A)
    → (A → S → S)
    → S
    → Option S
optional none read put s = none
optional (some none) read put s = some s
optional (some (some n)) read put s = elim (read n) [ none ↦ none | some a ↦ some (put a s) ]

-- Statements that assign to a device, and may end the code.
abbrev pub Loader : Type 0
Loader = DeviceConfig → DeviceConfig × Ending

abbrev pub proceed : DeviceConfig × Ending → Loader → DeviceConfig × Ending
proceed (d, complete) next = next d
proceed (d, ending) next = (d, ending)

infixl 5 ◌>>=◌ ◌>>◌
abbrev pub ◌>>=◌ {ℓ κ} : {A : Type ℓ} {B : Type κ} → Option A → (A → Option B) → Option B
none >>= f = none
some a >>= f = f a

abbrev pub ◌>>◌ : Loader → Loader → Loader
◌>>◌ first next d = proceed (first d) next

module _ (l : Documents) where
  open l use {Node, Text, text_node, int_node, mapping, member, as_text, as_int, print, parse}

  unfoldable pub load_tcp : Node → Option ModbusTcpConnectionConfig
  load_tcp n = do
    c ← optional (member "ip" n) as_text (λ v c. record c { ip = v }) default_tcp
    c ← optional (member "port" n) as_int (λ v c. record c { port = v }) c
    optional (member "unit_id" n) as_int (λ v c. record c { unit_id = v }) c

  unfoldable pub load_rtu : Node → Option ModbusRtuConnectionConfig
  load_rtu n = do
    c ← optional (member "port" n) as_text (λ v c. record c { port = v }) default_rtu
    c ← optional (member "baud_rate" n) as_int (λ v c. record c { baud_rate = v }) c
    c ← optional (member "data_bits" n) as_int (λ v c. record c { data_bits = v }) c
    c ← optional (member "stop_bits" n) as_int (λ v c. record c { stop_bits = v }) c
    c ← optional (member "parity" n) as_text (λ v c. record c { parity = v }) c
    optional (member "unit_id" n) as_int (λ v c. record c { unit_id = v }) c

  unfoldable pub load_echonet : Node → Option EchonetLiteConnectionConfig
  load_echonet n = optional (member "ip" n) as_text (λ v c. record c { ip = v }) default_echonet

  -- The connection of the protocol that the device has.
  unfoldable pub load_connection : ProtocolType → Node → Option (Option ConnectionConfig)
  load_connection modbus_tcp n = some (elim (load_tcp n) [ none ↦ none | some c ↦ some (tcp c) ])
  load_connection modbus_rtu n = some (elim (load_rtu n) [ none ↦ none | some c ↦ some (rtu c) ])
  load_connection echonet_lite n =
      some (elim (load_echonet n) [ none ↦ none | some c ↦ some (echonet c) ])
  load_connection unknown n = none

  -- A text member, where there is one.
  unfoldable pub load_text : String → (String → DeviceConfig → DeviceConfig) → Node → Loader
  load_text key put n d = elim (optional (member key n) as_text put d) [
    | none ↦ (d, thrown)
    | some d' ↦ (d', complete)
  ]

  unfoldable pub connect : DeviceConfig → Option (Option ConnectionConfig) → DeviceConfig × Ending
  connect d none = (d, refused)
  connect d (some none) = (d, thrown)
  connect d (some (some c)) = (record d { connection = c }, complete)

  unfoldable pub load_member_connection : Option (Option Node) → Loader
  load_member_connection none d = (d, thrown)
  load_member_connection (some none) d = (d, complete)
  load_member_connection (some (some n)) d = connect d (load_connection d.protocol n)

  -- The assignments to one device from its node, in the order of the code.
  unfoldable pub load_fields : Node → Loader
  load_fields n = do
    load_text "id" (λ v d. record d { id = v }) n
    load_text "template" (λ v d. record d { template_id = v }) n
    load_text "protocol" (λ v d. record d { protocol = protocol_from_string v }) n
    load_text "ocpp_id" (λ v d. record d { ocpp_id = v }) n
    load_member_connection (member "connection" n)

  abbrev validated : DeviceConfig × Ending → DeviceConfig × Bool
  validated (d, complete) = (d, not (is_some (validate d)))
  validated (d, _) = (d, false)

  -- The code from the root node on: the device afterwards, and the result.
  unfoldable pub load_root : Option Node → DeviceConfig → DeviceConfig × Bool
  load_root none d = (d, false)
  load_root (some root) d = elim (member "device" root) [
    | none ↦ (d, false)
    | some none ↦ (d, false)
    | some (some n) ↦ validated (load_fields n d)
  ]

  unfoldable pub load_from_yaml_string : Text → DeviceConfig → DeviceConfig × Bool
  load_from_yaml_string text d = load_root (parse text) d

  unfoldable pub load_from_json_string : Text → DeviceConfig → DeviceConfig × Bool
  load_from_json_string text d = load_root (parse text) d

  -- `none` is a file that cannot be opened.
  unfoldable pub load_from_yaml : Option Text → DeviceConfig → DeviceConfig × Bool
  load_from_yaml none d = (d, false)
  load_from_yaml (some text) d = load_root (parse text) d

  unfoldable pub load_from_json : Option Text → DeviceConfig → DeviceConfig × Bool
  load_from_json none d = (d, false)
  load_from_json (some text) d = load_root (parse text) d

  -- The connection of a device as a node.
  unfoldable pub save_connection : ProtocolType → ConnectionConfig → Saved Node
  save_connection modbus_tcp (tcp c) = saved (
      mapping
        (("ip", text_node c.ip) ∷ ("port", int_node c.port) ∷ ("unit_id", int_node c.unit_id) ∷ []))
  save_connection modbus_rtu (rtu c) = saved (
      mapping (
        ("port", text_node c.port)
        ∷ ("baud_rate", int_node c.baud_rate)
        ∷ ("data_bits", int_node c.data_bits)
        ∷ ("stop_bits", int_node c.stop_bits)
        ∷ ("parity", text_node c.parity)
        ∷ ("unit_id", int_node c.unit_id)
        ∷ []))
  save_connection echonet_lite (echonet c) = saved (mapping (("ip", text_node c.ip) ∷ []))
  save_connection unknown c = skipped
  save_connection _ c = failed

  unfoldable pub save_node : DeviceConfig → Saved Node
  save_node d = elim (save_connection d.protocol d.connection) [
    | failed ↦ failed
    | skipped ↦ skipped
    | saved c ↦ saved (
        mapping (
          ("id", text_node d.id)
          ∷ ("template", text_node d.template_id)
          ∷ ("protocol", text_node (protocol_to_string d.protocol))
          ∷ ("ocpp_id", text_node d.ocpp_id)
          ∷ ("connection", c)
          ∷ []))
  ]

  -- `none` is the result `false`; else what the file holds afterwards. The flag is whether the file opens.
  abbrev pub write : Bool → Saved Node → Option Text
  write opens failed = none
  write opens skipped = none
  write opens (saved n) = if opens then some (print (mapping (("device", n) ∷ []))) else none

  unfoldable pub save_to_yaml : Bool → DeviceConfig → Option Text
  save_to_yaml opens d = write opens (save_node d)

  unfoldable pub save_to_json : Bool → DeviceConfig → Option Text
  save_to_json opens d = write opens (save_node d)
