-- ===== src/States/PoolFees.antt =====
-- The fees of a pool in programs/cp-swap/src/states/pool.rs: what the vaults hold beside them, the
-- parameters of a swap, and how a swap adds to them.
use mim_swap_sol.Prelude.{
  ℕ, ◌==◌, if◌then◌else◌, ◌&&◌, ◌||◌, Bool, true, false, u64_max, u128_max, checked_add,
  checked_mul, checked_sub, checked_div, ok, err, unwrap, ok_or, require, ◌>>=◌, ◌>>◌,
}
use mim_swap_sol.Curve.ConstantProduct.{TradeDirection}
use mim_swap_sol.Errors.{Pubkey, ErrorCode, AnchorError, code, anchor, Result}
use mim_swap_sol.States.Pool.{PoolState, CreatorFeeOn, from_u8, q32}

pub record SwapParams : Type 0 where
  pub trade_direction : TradeDirection
  pub total_input_token_amount : ℕ
  pub total_output_token_amount : ℕ
  pub token_0_price_x64 : ℕ
  pub token_1_price_x64 : ℕ
  pub is_creator_fee_on_input : Bool

-- The fees of one token, added up.
unfoldable pub total_fees : ℕ → ℕ → ℕ → Result ℕ
total_fees protocol fund creator = do
  sum ← ok_or (checked_add u64_max protocol fund) (code ErrorCode.math_overflow)
  ok_or (checked_add u64_max sum creator) (code ErrorCode.math_overflow)

unfoldable pub vault_amount_without_fee : ℕ → ℕ → PoolState → Result (ℕ × ℕ)
vault_amount_without_fee vault_0 vault_1 self = do
  fees_token_0 ←
      total_fees self.protocol_fees_token_0 self.fund_fees_token_0 self.creator_fees_token_0
  fees_token_1 ←
      total_fees self.protocol_fees_token_1 self.fund_fees_token_1 self.creator_fees_token_1
  left_0 ← ok_or (checked_sub vault_0 fees_token_0) (code ErrorCode.insufficient_vault)
  left_1 ← ok_or (checked_sub vault_1 fees_token_1) (code ErrorCode.insufficient_vault)
  ok (left_0, left_1)

-- `a as u128 * Q32 as u128 / b as u128`, which panics when `b` is 0.
unfoldable pub price_x32 : ℕ → ℕ → Result ℕ
price_x32 a b = do product ← unwrap (checked_mul u128_max a q32); unwrap (checked_div product b)

unfoldable pub token_price_x32 : ℕ → ℕ → PoolState → Result (ℕ × ℕ)
token_price_x32 vault_0 vault_1 self = do
  (token_0_amount, token_1_amount) ← vault_amount_without_fee vault_0 vault_1 self
  price_0 ← price_x32 token_1_amount token_0_amount
  price_1 ← price_x32 token_0_amount token_1_amount
  ok (price_0, price_1)

unfoldable pub fee_on_input : CreatorFeeOn → TradeDirection → Bool
fee_on_input CreatorFeeOn.both_token direction = true
fee_on_input CreatorFeeOn.only_token_0 TradeDirection.zero_for_one = true
fee_on_input CreatorFeeOn.only_token_1 TradeDirection.one_for_zero = true
fee_on_input _ _ = false

unfoldable pub is_creator_fee_on_input : TradeDirection → PoolState → Result Bool
is_creator_fee_on_input direction self = do
  fee_on ← from_u8 self.creator_fee_on
  ok (fee_on_input fee_on direction)

unfoldable pub zero_for_one_params : ℕ → ℕ → PoolState → Result SwapParams
zero_for_one_params input_vault_amount output_vault_amount self = do
  (input, output) ← vault_amount_without_fee input_vault_amount output_vault_amount self
  (price_0, price_1) ← token_price_x32 input_vault_amount output_vault_amount self
  on_input ← is_creator_fee_on_input TradeDirection.zero_for_one self
  ok (record {
    trade_direction = TradeDirection.zero_for_one;
    total_input_token_amount = input;
    total_output_token_amount = output;
    token_0_price_x64 = price_0;
    token_1_price_x64 = price_1;
    is_creator_fee_on_input = on_input;
  })

unfoldable pub one_for_zero_params : ℕ → ℕ → PoolState → Result SwapParams
one_for_zero_params input_vault_amount output_vault_amount self = do
  (output, input) ← vault_amount_without_fee output_vault_amount input_vault_amount self
  (price_0, price_1) ← token_price_x32 output_vault_amount input_vault_amount self
  on_input ← is_creator_fee_on_input TradeDirection.one_for_zero self
  ok (record {
    trade_direction = TradeDirection.one_for_zero;
    total_input_token_amount = input;
    total_output_token_amount = output;
    token_0_price_x64 = price_0;
    token_1_price_x64 = price_1;
    is_creator_fee_on_input = on_input;
  })

unfoldable pub get_swap_params : Pubkey → Pubkey → ℕ → ℕ → PoolState → Result SwapParams
get_swap_params input_vault_key output_vault_key input_vault_amount output_vault_amount self =
    if input_vault_key == self.token_0_vault && output_vault_key == self.token_1_vault
    then zero_for_one_params input_vault_amount output_vault_amount self
    else if input_vault_key == self.token_1_vault && output_vault_key == self.token_0_vault
    then one_for_zero_params input_vault_amount output_vault_amount self
    else err (code ErrorCode.invalid_vault)

unfoldable pub adjust_creator_fee_rate : ℕ → PoolState → ℕ
adjust_creator_fee_rate creator_fee_rate self =
    if self.enable_creator_fee then creator_fee_rate else 0

-- Where the creator's fee goes: to the input token's account or to the output token's.
unfoldable pub add_creator_fee : ℕ → TradeDirection → Bool → PoolState → Result PoolState
add_creator_fee fee TradeDirection.zero_for_one true self = do
  sum ← unwrap (checked_add u64_max self.creator_fees_token_0 fee)
  ok (record self { creator_fees_token_0 = sum })
add_creator_fee fee TradeDirection.zero_for_one false self = do
  sum ← unwrap (checked_add u64_max self.creator_fees_token_1 fee)
  ok (record self { creator_fees_token_1 = sum })
add_creator_fee fee TradeDirection.one_for_zero true self = do
  sum ← unwrap (checked_add u64_max self.creator_fees_token_1 fee)
  ok (record self { creator_fees_token_1 = sum })
add_creator_fee fee TradeDirection.one_for_zero false self = do
  sum ← unwrap (checked_add u64_max self.creator_fees_token_0 fee)
  ok (record self { creator_fees_token_0 = sum })

-- The protocol's and the fund's fee go to the input token.
unfoldable pub add_input_fees : ℕ → ℕ → TradeDirection → PoolState → Result PoolState
add_input_fees protocol_fee fund_fee TradeDirection.zero_for_one self = do
  protocol ← unwrap (checked_add u64_max self.protocol_fees_token_0 protocol_fee)
  fund ← unwrap (checked_add u64_max self.fund_fees_token_0 fund_fee)
  ok (record self { protocol_fees_token_0 = protocol; fund_fees_token_0 = fund })
add_input_fees protocol_fee fund_fee TradeDirection.one_for_zero self = do
  protocol ← unwrap (checked_add u64_max self.protocol_fees_token_1 protocol_fee)
  fund ← unwrap (checked_add u64_max self.fund_fees_token_1 fund_fee)
  ok (record self { protocol_fees_token_1 = protocol; fund_fees_token_1 = fund })

unfoldable pub update_fees : ℕ → ℕ → ℕ → TradeDirection → PoolState → Result PoolState
update_fees protocol_fee fund_fee creator_fee direction self = do
  require (self.enable_creator_fee || creator_fee == 0) (anchor AnchorError.require_eq_violated)
  on_input ← is_creator_fee_on_input direction self
  charged ← add_input_fees protocol_fee fund_fee direction self
  add_creator_fee creator_fee direction on_input charged
