-- ===== src/Treasury.antt =====
-- The treasury program (programs/mana-treasury/src/lib.rs).
pub mod Errors
pub mod State
pub mod Accounts
pub mod Staking
pub mod Router
pub mod Admin
pub mod Pricing
pub mod Requests
pub mod Runs
pub mod Holdings
pub mod Effects
pub mod Prices
pub mod Backing
pub mod Administration
pub mod Steps
pub mod Reachable
pub mod Redemption
pub mod Lifetime
pub mod Authority
