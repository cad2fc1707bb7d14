-- ===== src/FeeCollection.antt =====
-- The collection of fees from a pool (programs/cp-swap/src/instructions/admin/collect_protocol_fee.rs,
-- admin/collect_fund_fee.rs, collect_creator_fee.rs), and admin/update_pool_status.rs.
pub mod Accounts
pub mod Handlers
pub mod Payout
pub mod Recipients
pub mod Safety
