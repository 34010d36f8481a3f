-- ===== src/Config.antt =====
-- Configuration of devices: src/common/device_config.cpp and include/ocpp_gateway/common/config_types.h.
pub mod Types
pub mod Documents
pub mod Device
pub mod Validate
pub mod Collection
pub mod Table
pub mod RoundTrip
pub mod CollectionRoundTrip
pub mod ToyDocuments
mod Scenarios
