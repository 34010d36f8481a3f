-- ===== src/Modbus.antt =====
-- src/device/modbus_rtu_adapter.cpp: validation of requests, conversion between register words and
-- values, the grouping of addresses into block reads, reading and writing.
pub mod Convert
pub mod RoundTrip
pub mod Validate
pub mod Group
pub mod Read
pub mod ReadBlocks
pub mod ReadAll
pub mod Write
pub mod WriteBack
mod Scenarios
mod ReadScenarios
