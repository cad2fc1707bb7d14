-- ===== src/States.antt =====
-- programs/cp-swap/src/states: the accounts of the swap program.
pub mod Pool
pub mod PoolFees
pub mod Config
pub mod Oracle
pub mod StatusLaws
pub mod PoolLaws
pub mod ConfigLaws
pub mod OracleRing
pub mod OracleLaws
