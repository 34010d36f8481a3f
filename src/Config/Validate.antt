-- ===== src/Config/Validate.antt =====
-- Which configurations pass validation.
use ocpp_gw.Base.{
  ℕ, ◌≤◌, ℤ, pos, negsuc, ◌≡◌, ◌≢◌, ◌↔◌, ◌⊎◌, refl, none, List, [], ◌∷◌, eq_iff, All, arith,
}
use ocpp_gw.Config.Types.{
  ProtocolType, modbus_tcp, modbus_rtu, echonet_lite, unknown, ModbusTcpConnectionConfig,
  ModbusRtuConnectionConfig, EchonetLiteConnectionConfig, ConnectionConfig, tcp, rtu, echonet,
  DeviceConfig, validate_tcp, validate_rtu, validate_echonet, validate_connection, validate,
}
use ocpp_gw.Config.Collection.{validate_all}

-- An integer between two bounds, the first of which is a natural number.
abbrev pub Between : ℕ → ℕ → ℤ → Type 0
Between low high (pos n) = (low ≤ n) × (n ≤ high)
Between low high (negsuc n) = ⊥

abbrev pub IsPositive : ℤ → Type 0
IsPositive (pos n) = 1 ≤ n
IsPositive (negsuc n) = ⊥

abbrev pub GoodTcp : ModbusTcpConnectionConfig → Type 0
GoodTcp c = (c.ip ≢ "") × (Between 1 65535 c.port × Between 0 247 c.unit_id)

abbrev pub GoodRtu : ModbusRtuConnectionConfig → Type 0
GoodRtu c =
    (c.port ≢ "")
    × (IsPositive c.baud_rate
        × (Between 7 8 c.data_bits
            × (Between 1 2 c.stop_bits
                × (((c.parity ≡ "none") ⊎ ((c.parity ≡ "even") ⊎ (c.parity ≡ "odd")))
                    × Between 0 247 c.unit_id))))

-- A connection of the protocol's own kind, within its bounds.
abbrev pub GoodConnection : ProtocolType → ConnectionConfig → Type 0
GoodConnection modbus_tcp (tcp c) = GoodTcp c
GoodConnection modbus_rtu (rtu c) = GoodRtu c
GoodConnection echonet_lite (echonet c) = c.ip ≢ ""
GoodConnection _ c = ⊥

validate_tcp_iff : (c : ModbusTcpConnectionConfig) → (validate_tcp c ≡ none) ↔ GoodTcp c
unfolding validate_tcp
validate_tcp_iff c = ground (arith, eq_iff c.ip "")

validate_rtu_iff : (c : ModbusRtuConnectionConfig) → (validate_rtu c ≡ none) ↔ GoodRtu c
unfolding validate_rtu
validate_rtu_iff c =
    ground (
      arith,
      eq_iff c.port "",
      eq_iff c.parity "none",
      eq_iff c.parity "even",
      eq_iff c.parity "odd",
    )

validate_echonet_iff : (c : EchonetLiteConnectionConfig) → (validate_echonet c ≡ none) ↔ (c.ip ≢ "")
unfolding validate_echonet
validate_echonet_iff c = ground (arith, eq_iff c.ip "")

validate_connection_iff :
    (p : ProtocolType) (c : ConnectionConfig)
    → (validate_connection p c ≡ none) ↔ GoodConnection p c
unfolding validate_connection
validate_connection_iff modbus_tcp (tcp c) = validate_tcp_iff c
validate_connection_iff modbus_tcp (rtu c) = ground arith
validate_connection_iff modbus_tcp (echonet c) = ground arith
validate_connection_iff modbus_rtu (tcp c) = ground arith
validate_connection_iff modbus_rtu (rtu c) = validate_rtu_iff c
validate_connection_iff modbus_rtu (echonet c) = ground arith
validate_connection_iff echonet_lite (tcp c) = ground arith
validate_connection_iff echonet_lite (rtu c) = ground arith
validate_connection_iff echonet_lite (echonet c) = validate_echonet_iff c
validate_connection_iff unknown c = ground arith

-- A device passes exactly if its identifier, its template and its OCPP identifier are not empty, and its
-- connection is of the kind of its protocol (which is then known) and within its bounds: ports from 1 to 65535,
-- units from 0 to 247, a positive baud rate, 7 or 8 data bits, 1 or 2 stop bits, a parity of the three, and no
-- empty address.
pub validate_iff :
    (d : DeviceConfig)
    → (validate d ≡ none) ↔ (
        (d.id ≢ "")
        × ((d.template_id ≢ "") × ((d.ocpp_id ≢ "") × GoodConnection d.protocol d.connection)))
unfolding validate
validate_iff d = ground (
  arith,
  eq_iff d.id "",
  eq_iff d.template_id "",
  eq_iff d.ocpp_id "",
  validate_connection_iff d.protocol d.connection,
)

pub validate_all_iff :
    (ds : List DeviceConfig) → (validate_all ds ≡ none) ↔ All (λ d. validate d ≡ none) ds
unfolding validate_all
validate_all_iff [] = (λ h. tt, λ h. refl)
validate_all_iff (d ∷ ds) = ground (arith, validate_all_iff ds)
