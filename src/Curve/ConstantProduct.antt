-- ===== src/Curve/ConstantProduct.antt =====
-- programs/cp-swap/src/curve/constant_product.rs, with `CheckedCeilDiv` of
-- programs/cp-swap/src/utils/math.rs and the enumerations of calculator.rs.
mod Rounding
unfoldable pub use Rounding.*
use mim_swap_sol.Prelude.{
  ℕ, u128_max, checked_add, checked_mul, checked_sub, checked_div, Outcome, unwrap, ◌>>=◌,
}

unfoldable pub swap_base_input_without_fees {ℓ} : {E : Type ℓ} → ℕ → ℕ → ℕ → Outcome E ℕ
swap_base_input_without_fees input_amount input_vault_amount output_vault_amount = do
  numerator ← unwrap (checked_mul u128_max input_amount output_vault_amount)
  denominator ← unwrap (checked_add u128_max input_vault_amount input_amount)
  unwrap (checked_div numerator denominator)

unfoldable pub swap_base_output_without_fees {ℓ} : {E : Type ℓ} → ℕ → ℕ → ℕ → Outcome E ℕ
swap_base_output_without_fees output_amount input_vault_amount output_vault_amount = do
  numerator ← unwrap (checked_mul u128_max input_vault_amount output_amount)
  denominator ← unwrap (checked_sub output_vault_amount output_amount)
  unwrap (checked_ceil_div numerator denominator)
