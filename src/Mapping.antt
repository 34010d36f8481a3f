-- ===== src/Mapping.antt =====
-- Mapping templates (src/ocpp/mapping_config.cpp): the variables of a device type, and inheritance.
pub mod Template
pub mod Validate
pub mod Inherit
pub mod Children
pub mod Collection
pub mod Resolve
pub mod Order
pub mod Cycle
pub mod Storage
pub mod Translator
mod Scenarios
