-- ===== src/Curve/ConstantProduct/Rounding.antt =====
-- Division that rounds up (programs/cp-swap/src/utils/math.rs), and the exchange of lp tokens for
-- trading tokens in programs/cp-swap/src/curve/constant_product.rs.
use mim_swap_sol.Prelude.{
  ℕ, ◌+◌, ◌==◌, ltb, if◌then◌else◌, ◌&&◌, not, Option, some, u128_max, checked_add, checked_mul,
  checked_div, checked_rem,
}
use mim_swap_sol.Prelude.Maybe.{◌>>=◌}

pub data TradeDirection : Type 0 where
  zero_for_one one_for_zero : TradeDirection

pub data RoundDirection : Type 0 where
  floor ceiling : RoundDirection

pub record TradingTokenResult : Type 0 where
  pub token_0_amount : ℕ
  pub token_1_amount : ℕ

unfoldable pub opposite : TradeDirection → TradeDirection
opposite TradeDirection.zero_for_one = TradeDirection.one_for_zero
opposite TradeDirection.one_for_zero = TradeDirection.zero_for_one

unfoldable pub checked_ceil_div : ℕ → ℕ → Option ℕ
checked_ceil_div a rhs = do
  quotient ← checked_div a rhs
  remainder ← checked_rem a rhs
  if not (remainder == 0) then checked_add u128_max quotient 1 else some quotient

-- One token's share of `lp_token_amount`, rounded down.
unfoldable pub floor_share : ℕ → ℕ → ℕ → Option ℕ
floor_share lp_token_amount lp_token_supply vault_amount = do
  product ← checked_mul u128_max lp_token_amount vault_amount
  checked_div product lp_token_supply

-- The `Ceiling` branch for one token: a share that rounds down to 0 stays 0. The increment cannot
-- overflow, since it is made only where the division left a remainder.
unfoldable pub ceiling_share : ℕ → ℕ → ℕ → ℕ → Option ℕ
ceiling_share lp_token_amount lp_token_supply vault_amount amount = do
  product ← checked_mul u128_max lp_token_amount vault_amount
  remainder ← checked_rem product lp_token_supply
  some (if ltb 0 remainder && ltb 0 amount then amount + 1 else amount)

unfoldable pub round_shares :
    RoundDirection → ℕ → ℕ → ℕ → ℕ → TradingTokenResult → Option TradingTokenResult
round_shares RoundDirection.floor lp supply vault_0 vault_1 shares = some shares
round_shares RoundDirection.ceiling lp supply vault_0 vault_1 shares = do
  token_0_amount ← ceiling_share lp supply vault_0 shares.token_0_amount
  token_1_amount ← ceiling_share lp supply vault_1 shares.token_1_amount
  some (record { token_0_amount = token_0_amount; token_1_amount = token_1_amount })

unfoldable pub lp_tokens_to_trading_tokens :
    ℕ → ℕ → ℕ → ℕ → RoundDirection → Option TradingTokenResult
lp_tokens_to_trading_tokens lp supply vault_0 vault_1 round_direction = do
  token_0_amount ← floor_share lp supply vault_0
  token_1_amount ← floor_share lp supply vault_1
  round_shares round_direction lp supply vault_0 vault_1
      (record { token_0_amount = token_0_amount; token_1_amount = token_1_amount })
