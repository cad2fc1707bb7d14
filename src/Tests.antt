-- ===== src/Tests.antt =====
-- The programs run on a concrete pool and a concrete treasury, and the theorems at concrete inputs.
mod Sample
mod Swaps
mod Shares
mod Fees
mod Maths
mod Configs
mod Trades
mod Pools
mod Vaults
mod Treasuries
mod Authorities
