-- ===== src/Liquidity.antt =====
-- Deposits and withdrawals of the swap program (programs/cp-swap/src/instructions/deposit.rs and
-- withdraw.rs): the accounts with Anchor's constraints, the handlers, and what they keep.
pub mod Accounts
pub mod Handlers
pub mod Entitlement
pub mod Run
pub mod Shares
pub mod Deposits
pub mod Withdrawals
