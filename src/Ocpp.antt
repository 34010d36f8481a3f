-- ===== src/Ocpp.antt =====
-- The OCPP side: messages on the wire, the message processor and the client manager.
pub mod Json
pub mod Message
pub mod Codec
pub mod RoundTrip
pub mod Processor
pub mod Delivery
pub mod Channel
pub mod Fifo
pub mod Requests
mod Scenarios
pub mod Backoff
pub mod WebSocketClient
pub mod WebSocketState
pub mod WebSocketRuns
pub mod WebSocketOrder
pub mod WebSocketBounds
pub mod WebSocketProgress
mod WebSocketScenarios
pub mod Manager
pub mod ManagerOrder
pub mod Steady
pub mod Notices
pub mod EndToEnd
pub mod ToyJson
pub mod Evses
pub mod EvsesTable
pub mod EvsesInvariant
mod EvseScenarios
