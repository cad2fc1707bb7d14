-- ===== src/Token.antt =====
-- The token programs that both programs of the repository call, the swap program's own calls of
-- them (programs/cp-swap/src/utils/token.rs), and a concrete ledger.
pub mod Interface
pub mod Calls
pub mod Laws
pub mod SupplyLaws
pub mod Simple
