-- ===== src/Creation.antt =====
-- The creation of a pool (programs/cp-swap/src/instructions/initialize.rs,
-- initialize_with_permission.rs).
pub mod System
pub mod Accounts
pub mod Handlers
pub mod Root
pub mod SystemLaws
pub mod Mints
pub mod Founding
