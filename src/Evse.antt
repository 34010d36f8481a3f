-- ===== src/Evse.antt =====
-- src/ocpp/evse_state_machine.cpp and include/ocpp_gateway/ocpp/evse_state_machine.h: the state
-- machine of one EVSE connector, with its transaction, its variables and its two timers.
pub mod Connector
pub mod Types
pub mod Machine
pub mod Actions
pub mod Invariant
pub mod Accepts
pub mod Identity
pub mod Timer
pub mod Diagram
pub mod Trace
mod Scenarios
