-- ===== src/Swap.antt =====
-- The swap instructions of programs/cp-swap/src/instructions: what they share (`Settle`), the two
-- handlers (`Handlers`), and what a swap that succeeds has done.
pub mod Accounts
pub mod Settle
pub mod Handlers
pub mod SettleLaws
pub mod Quotes
pub mod Safety
