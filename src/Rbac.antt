-- ===== src/Rbac.antt =====
-- `RbacManager` (src/common/rbac_manager.cpp): users, their roles, and what a role permits.
pub mod Permissions
pub mod Manager
pub mod Access
mod Scenarios
