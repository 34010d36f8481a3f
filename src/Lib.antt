-- ===== src/Lib.antt =====
-- The OCPP gateway's core logic: devices that speak Modbus or ECHONET Lite are shown to a charging
-- management system as EVSEs (charging points) over OCPP.
--
-- The parts, and the files that model them:
--   Evse      the state machine of one connector: src/ocpp/evse_state_machine.cpp and its header. `Types`
--             holds the enumerations and structs, `Connector` and `Machine` one function per member function, `Actions`
--             the calls and timer completions that drive a machine. `Diagram`, `Accepts`, `Invariant`,
--             `Timer`, `Identity` and `Trace` are about them. Callbacks are an outbox in the order of the calls. The
--             clock, fresh identifiers, `std::stod` and arithmetic on doubles are the `Platform` and
--             `Readings` that the functions take.
--   Device    values, addresses and the base class of the adapters: src/device/device_adapter.cpp and
--             its header. `Types` and `Value` are the structs and `RegisterValue`, `Adapter` is
--             `BaseDeviceAdapter` with its table of devices and the mutex on it, `Sound` and `Registry` what that
--             table promises. An operation whose thread would wait for a mutex that it holds is `none`.
--   Modbus    src/device/modbus_rtu_adapter.cpp: validation (`Validate`), conversion between register
--             words and values (`Convert`, `RoundTrip`), and the grouping of addresses into block reads
--             (`Group`), reading one register or many (`Read`, `ReadBlocks`, `ReadAll`), writing (`Write`) and
--             reading back (`WriteBack`). `std::sort` and the line of libmodbus are parameters with
--             their documented promise.
--   Echonet   src/device/echonet_lite_adapter.cpp: the frames (`Frame`), their encoding (`Codec`), the
--             request frames as a device reads them (`Requests`), and `sendRequestWithResponse` with the
--             frames that the receiver thread handles meanwhile (`Exchange`, `Counter`, `Pending`,
--             `Delivery`), and `readRegister` and `writeRegister` on top of it (`Registers`, `Reading`). What
--             the network does is an argument; `none` is an exception that ends the process.
--   Rbac      src/common/rbac_manager.cpp: roles and permissions (`Permissions`), users, passwords and
--             tokens (`Manager`), who gets in (`Access`). `std::hash` and the random token are arguments.
--   Mapping   src/ocpp/mapping_config.cpp: variables and templates (`Template`), their validation
--             (`Validate`), inheritance from one parent (`Inherit`, `Children`), the collection and the loop that
--             applies the parents (`Collection`, `Resolve`, `Order`), the check for circular inheritance and
--             all of `resolveInheritance` (`Cycle` and its children), loading and saving as YAML and JSON
--             (`Storage` and its children). src/ocpp/variable_translator.cpp:
--             `Translator` turns OCPP values into the bytes of a device and back; its children are about
--             that. Arithmetic on doubles is a parameter.
--   Config    src/common/device_config.cpp and config_types.h: the configuration of a device (`Types`,
--             `Device`) and of all (`Collection`), loaded and saved as YAML and JSON through a library of
--             documents (`Documents`); `Validate`, `Table`, `RoundTrip` and `CollectionRoundTrip` are about
--             them.
--   Ocpp      src/ocpp/ocpp_message_processor.cpp and src/ocpp/websocket_client.cpp. `Message` and `Codec` are
--             the messages, their text and its parser; `Json` is the record of what they use of the JSON
--             library, with its laws. `Processor` is `OcppMessageProcessor`; `RoundTrip`, `Delivery`,
--             `Requests`, `Channel` and `Fifo` are about them. `WebSocketState`, `WebSocketClient` and
--             `Backoff` are `WebSocketClient`, with the operations of its streams and timers as a list of
--             what is outstanding; an event of `WebSocketRuns` is a call, or the completion of one of them
--             with any result. `WebSocketOrder`, `WebSocketBounds` and `WebSocketProgress` are about its
--             histories. Handlers are parameters of the processor and a log of the client.
--             src/ocpp/ocpp_client_manager.cpp: `Manager` puts the two together as `OcppClientManager` does,
--             `Steady`, `Notices`, `ManagerOrder` and `EndToEnd` are about it; `Evses` is its table of state
--             machines, `EvsesTable` and `EvsesInvariant` about that. `ToyJson` is for `Scenarios`.
--   Base      what these share: Boolean tests, lists, signed integers, and `std::map` with string keys as
--             a list in the order of the keys.
-- The headers stand under include/ocpp_gateway/. In the program the adapters read registers, the mapping
-- templates name the registers behind an OCPP variable, and the state machine reports what it reads from
-- its variables; the client manager joins the message processor and the WebSocket client, whose states are
-- then one (Ocpp/Manager). The other parts share no state here. Each part has its concrete inputs in
-- `Scenarios` (and `ReadingScenarios`, `ReadScenarios`, `WebSocketScenarios`, `EvseScenarios`).
--
-- Numbers: a `uint8_t`, `uint16_t` or `uint32_t` is a natural number, with the wrap-around written out
-- where the code can reach it (`close` and `end_of` in Modbus/Group, the counters in Echonet/Frame).
-- Signed values and floats in a register are their bit patterns. Bounds and fuel: the loop that applies
-- parents is on fuel, and two rounds are proved to be enough; the search for a circle of parents is on
-- fuel, one more than the names that have a parent, which is proved to be enough
-- (Mapping/Cycle/Termination); every other loop is structural recursion.
--
-- Not modelled: sockets, serial ports, threads and polling, logging, the configuration of the
-- system and of the CSMS, metrics, TLS and the administration interfaces, which are input and output or
-- call third-party libraries. The libraries for YAML and JSON are parameters (`Config/Documents`, `Storage`,
-- `Json`). A callback of the device adapter that calls it back is not modelled. Of the
-- mapping templates, reading a whole directory, reloading it when a file changes and the
-- collection's validation are not modelled, nor is what a template holds after its loading has thrown.
-- Of the WebSocket client, handlers that call the client back while it runs, the parser of the URL and
-- the TLS context are not modelled either.
pub mod Base
pub mod Device
pub mod Evse
pub mod Echonet
pub mod Modbus
pub mod Rbac
pub mod Mapping
pub mod Ocpp
pub mod Config
