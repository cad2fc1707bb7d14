-- ===== src/Curve.antt =====
-- programs/cp-swap/src/curve: fees, the constant-product curve and the swap calculator.
pub mod Fees
pub mod ConstantProduct
pub mod Calculator
pub mod FeeLaws
pub mod Exchange
pub mod Traces
pub mod SwapLaws
pub mod ShareLaws
pub mod Totality
