-- ===== src/Curve/Fees.antt =====
-- programs/cp-swap/src/curve/fees.rs. Rates are in millionths.
use mim_swap_sol.Prelude.{
  ℕ, ◌==◌, if◌then◌else◌, Option, none, some, u64_max, u128_max, checked_add, checked_mul,
  checked_sub, checked_div, Outcome, unwrap, try_some, ◌>>=◌ as ◌>>>=◌,
}
use mim_swap_sol.Prelude.Maybe.{◌>>=◌}

abbrev pub fee_rate_denominator_value : ℕ
fee_rate_denominator_value = 1_000_000

unfoldable pub ceil_div : ℕ → ℕ → ℕ → Option ℕ
ceil_div token_amount fee_numerator fee_denominator = if fee_denominator == 0 then none else do
  product ← checked_mul u128_max token_amount fee_numerator
  total ← checked_add u128_max product fee_denominator
  numerator ← checked_sub total 1
  checked_div numerator fee_denominator

unfoldable pub floor_div : ℕ → ℕ → ℕ → Option ℕ
floor_div token_amount fee_numerator fee_denominator = if fee_denominator == 0 then none else do
  product ← checked_mul u128_max token_amount fee_numerator
  checked_div product fee_denominator

unfoldable pub trading_fee : ℕ → ℕ → Option ℕ
trading_fee amount trade_fee_rate = ceil_div amount trade_fee_rate fee_rate_denominator_value

unfoldable pub protocol_fee : ℕ → ℕ → Option ℕ
protocol_fee amount protocol_fee_rate =
    floor_div amount protocol_fee_rate fee_rate_denominator_value

unfoldable pub fund_fee : ℕ → ℕ → Option ℕ
fund_fee amount fund_fee_rate = floor_div amount fund_fee_rate fee_rate_denominator_value

unfoldable pub creator_fee : ℕ → ℕ → Option ℕ
creator_fee amount creator_fee_rate = ceil_div amount creator_fee_rate fee_rate_denominator_value

-- The sum of the two rates is plain `u64` addition, which panics when it overflows.
unfoldable pub split_creator_fee : ℕ → ℕ → ℕ → Outcome (Unit {0}) ℕ
split_creator_fee total_fee trade_fee_rate creator_fee_rate =
    unwrap (checked_add u64_max trade_fee_rate creator_fee_rate) >>>= λ total_fee_rate.
    try_some (floor_div total_fee creator_fee_rate total_fee_rate)

unfoldable pub calculate_pre_fee_amount : ℕ → ℕ → Option ℕ
calculate_pre_fee_amount post_fee_amount trade_fee_rate =
    if trade_fee_rate == 0 then some post_fee_amount else do
      numerator ← checked_mul u128_max post_fee_amount fee_rate_denominator_value
      denominator ← checked_sub fee_rate_denominator_value trade_fee_rate
      total ← checked_add u128_max numerator denominator
      rounded ← checked_sub total 1
      checked_div rounded denominator
