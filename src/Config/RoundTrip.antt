-- ===== src/Config/RoundTrip.antt =====
-- A device that is saved and loaded.
use ocpp_gw.Base.{String, ◌≡◌, refl, ap, ◌∙◌, true, none, some, List, [], ◌∷◌, arith}
use ocpp_gw.Config.Types.{
  ProtocolType, modbus_tcp, modbus_rtu, echonet_lite, unknown, protocol_from_string,
  protocol_to_string, ModbusTcpConnectionConfig, ModbusRtuConnectionConfig,
  EchonetLiteConnectionConfig, ConnectionConfig, tcp, rtu, echonet, DeviceConfig,
  validate_connection, validate,
}
use ocpp_gw.Config.Documents.{Documents, IsDocuments}
use ocpp_gw.Config.Device.{
  complete, saved, load_tcp, load_rtu, load_echonet, load_connection, load_text, connect,
  load_member_connection, load_fields, load_root, load_from_yaml_string, load_from_yaml,
  load_from_json_string, load_from_json, write, save_to_yaml, save_connection, save_node,
  save_to_json,
}

module _ (l : Documents) (laws : IsDocuments l) where
  open l use {Node, Text, print, parse, text_node, int_node, mapping, as_text, as_int}
  open laws use {as_text-text_node, as_int-int_node, member-mapping, parse-print}

  load_tcp-save :
      (c : ModbusTcpConnectionConfig)
      → load_tcp l (
          mapping (
            ("ip", text_node c.ip)
            ∷ ("port", int_node c.port)
            ∷ ("unit_id", int_node c.unit_id)
            ∷ []))
        ≡ some c
  unfolding load_tcp
  load_tcp-save c = simp (member-mapping, as_text-text_node, as_int-int_node)

  load_rtu-save :
      (c : ModbusRtuConnectionConfig)
      → load_rtu l (
          mapping (
            ("port", text_node c.port)
            ∷ ("baud_rate", int_node c.baud_rate)
            ∷ ("data_bits", int_node c.data_bits)
            ∷ ("stop_bits", int_node c.stop_bits)
            ∷ ("parity", text_node c.parity)
            ∷ ("unit_id", int_node c.unit_id)
            ∷ []))
        ≡ some c
  unfolding load_rtu
  load_rtu-save c = simp (member-mapping, as_text-text_node, as_int-int_node)

  load_echonet-save :
      (c : EchonetLiteConnectionConfig)
      → load_echonet l (mapping (("ip", text_node c.ip) ∷ [])) ≡ some c
  unfolding load_echonet
  load_echonet-save c = simp (member-mapping, as_text-text_node)

  -- A connection that passes validation is saved, as a node from which the same connection is loaded.
  connection_back :
      (p : ProtocolType) (c : ConnectionConfig)
      → validate_connection p c ≡ none
      → (n : Node) × ((save_connection l p c ≡ saved n) × (load_connection l p n ≡ some (some c)))
  unfolding validate_connection save_connection load_connection
  connection_back modbus_tcp (tcp c) h = (_, (refl, rw (load_tcp-save c) refl))
  connection_back modbus_tcp (rtu c) h = absurd (ground arith)
  connection_back modbus_tcp (echonet c) h = absurd (ground arith)
  connection_back modbus_rtu (tcp c) h = absurd (ground arith)
  connection_back modbus_rtu (rtu c) h = (_, (refl, rw (load_rtu-save c) refl))
  connection_back modbus_rtu (echonet c) h = absurd (ground arith)
  connection_back echonet_lite (tcp c) h = absurd (ground arith)
  connection_back echonet_lite (rtu c) h = absurd (ground arith)
  connection_back echonet_lite (echonet c) h = (_, (refl, rw (load_echonet-save c) refl))
  connection_back unknown c h = absurd (ground arith)

  protocol_back : (p : ProtocolType) → protocol_from_string (protocol_to_string p) ≡ p
  unfolding protocol_from_string protocol_to_string
  protocol_back modbus_tcp = refl
  protocol_back modbus_rtu = refl
  protocol_back echonet_lite = refl
  protocol_back unknown = refl

  -- The node of a device whose connection has a node.
  abbrev members : DeviceConfig → Node → List (String × Node)
  members d c =
      ("id", text_node d.id)
      ∷ ("template", text_node d.template_id)
      ∷ ("protocol", text_node (protocol_to_string d.protocol))
      ∷ ("ocpp_id", text_node d.ocpp_id)
      ∷ ("connection", c)
      ∷ []

  abbrev device_node : DeviceConfig → Node → Node
  device_node d c = mapping (members d c)

  load_text_found :
      (key value : String) (put : String → DeviceConfig → DeviceConfig) (n : Node)
      (d : DeviceConfig)
      → l.member key n ≡ some (some (text_node value))
      → load_text l key put n d ≡ (put value d, complete)
  unfolding load_text
  load_text_found key value put n d h = rw (load_text, h, as_text-text_node value) refl

  member_connection_back :
      (d : DeviceConfig) (n : Node) (c : ConnectionConfig)
      → load_connection l d.protocol n ≡ some (some c)
      → load_member_connection l (some (some n)) d ≡ (record d { connection = c }, complete)
  unfolding load_member_connection connect
  member_connection_back d n c h = rw h refl

  load_fields-device_node :
      (d old : DeviceConfig) (c : Node)
      → load_connection l d.protocol c ≡ some (some d.connection)
      → load_fields l (device_node d c) old ≡ (d, complete)
  unfolding load_fields
  load_fields-device_node d old c h =
      let n = device_node d c in
      rw (load_text_found "id" d.id (λ v d. record d { id = v }) n old (member-mapping "id" _)) (
        rw
          (load_text_found "template" d.template_id (λ v d. record d { template_id = v }) n _
            (member-mapping "template" _))
          (rw
            (load_text_found "protocol" (protocol_to_string d.protocol)
              (λ v d. record d { protocol = protocol_from_string v }) n _
              (member-mapping "protocol" _))
            (rw
              (load_text_found "ocpp_id" d.ocpp_id (λ v d. record d { ocpp_id = v }) n _
                (member-mapping "ocpp_id" _))
              (rw (member-mapping "connection" (members d c)) (
                member_connection_back
                  (record d {
                    protocol = protocol_from_string (protocol_to_string d.protocol);
                    connection = old.connection;
                  })
                  c d.connection (rw (protocol_back d.protocol) h)
                ∙ ap (λ p. (record d { protocol = p }, complete)) (protocol_back d.protocol))))))

  valid_connection :
      (d : DeviceConfig) → validate d ≡ none → validate_connection d.protocol d.connection ≡ none
  unfolding validate
  valid_connection d h = ground arith

  -- A device that passes validation has a node, and whatever the device was before, it is loaded from that node.
  pub node_back :
      (d old : DeviceConfig)
      → validate d ≡ none
      → (n : Node) × ((save_node l d ≡ saved n) × (load_fields l n old ≡ (d, complete)))
  unfolding save_node
  node_back d old h =
      let (c, (s, b)) = connection_back d.protocol d.connection (valid_connection d h) in
      (device_node d c, (rw (save_node, s) refl, load_fields-device_node d old c b))

  -- What a root node that holds a device is loaded as.
  root_back :
      (d old : DeviceConfig)
      → validate d ≡ none
      → (text : Text) × ((write l true (save_node l d) ≡ some text)
          × (load_root l (parse text) old ≡ (d, true)))
  unfolding load_root
  root_back d old h =
      let (n, (s, b)) = node_back d old h in
      let root = ("device", n) ∷ [] in
      (
        print (mapping root),
        (
          rw s refl,
          rw (parse-print (mapping root), load_root, member-mapping "device" root, b, h) refl,
        ),
      )

-- A device that passes validation is saved as YAML and as JSON when the file opens; and loading the file, or
-- its text, into any device reports success and leaves that device the same as the one saved.
pub load-save :
    (yaml json : Documents) (d old : DeviceConfig)
    → IsDocuments yaml
    → IsDocuments json
    → validate d ≡ none
    → ((text : yaml.Text) × ((save_to_yaml yaml true d ≡ some text)
          × ((load_from_yaml yaml (some text) old ≡ (d, true))
              × (load_from_yaml_string yaml text old ≡ (d, true)))))
      × ((text : json.Text) × ((save_to_json json true d ≡ some text)
            × ((load_from_json json (some text) old ≡ (d, true))
                × (load_from_json_string json text old ≡ (d, true)))))
unfolding save_to_yaml save_to_json load_from_yaml load_from_yaml_string load_from_json
    load_from_json_string
load-save yaml json d old y j h =
    let (text, (s, b)) = root_back yaml y d old h in
    let (text', (s', b')) = root_back json j d old h in
    ((text, (s, (b, b))), (text', (s', (b', b'))))
