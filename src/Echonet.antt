-- ===== src/Echonet.antt =====
-- src/device/echonet_lite_adapter.cpp and its header: frames on the wire, requests and discovery.
pub mod Frame
pub mod Codec
pub mod Requests
pub mod Exchange
pub mod Counter
pub mod Pending
pub mod Delivery
pub mod Registers
pub mod Reading
mod Scenarios
mod ReadingScenarios
