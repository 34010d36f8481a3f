-- ===== src/Device.antt =====
-- include/ocpp_gateway/device/device_adapter.h and src/device/device_adapter.cpp: the values and
-- addresses that the device adapters share, and the base adapter with its table of devices.
pub mod Sound
pub mod Status
pub mod Types
pub mod Value
pub mod Bytes
pub mod Adapter
pub mod Registry
mod Scenarios
