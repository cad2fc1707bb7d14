-- ===== src/Swap/Handlers.antt =====
-- programs/cp-swap/src/instructions/swap_base_input.rs and swap_base_output.rs.
use mim_swap_sol.Prelude.{
  ℕ, ◌-◌, ◌==◌, ltb, leb, true, false, u64_max, u128_max, checked_add, checked_mul, checked_sub, ok,
  unwrap, require, none_to, ◌>>=◌, ◌>>◌,
}
use mim_swap_sol.Errors.{ErrorCode, AnchorError, code, anchor, Result}
use mim_swap_sol.Curve.Calculator.{SwapResult, swap_base_input, swap_base_output}
use mim_swap_sol.Token.Interface.{TokenProgram}
use mim_swap_sol.Token.Calls.{get_transfer_fee, get_transfer_inverse_fee}
use mim_swap_sol.States.PoolFees.{SwapParams}
use mim_swap_sol.States.Config.{AmmConfig}
use mim_swap_sol.Swap.Accounts.{Clock, World, SwapAccounts, SwapEvent, validate_swap}
use mim_swap_sol.Swap.Settle.{Quote, check_open, rates_of, to_u64, params_of, settle}

module _ (t : TokenProgram) (config : AmmConfig) where
  -- What the user pays and receives for an exact input, with the checks on the output.
  unfoldable pub quote_input :
      Clock → SwapAccounts → ℕ → ℕ → ℕ → SwapParams → SwapResult → World t → Result Quote
  quote_input clock a amount_in transfer_fee minimum_amount_out params result w = do
    input_amount ← to_u64 result.input_amount
    require (input_amount == amount_in - transfer_fee) (anchor AnchorError.require_eq_violated)
    amount_out ← to_u64 result.output_amount
    output_fee ← get_transfer_fee t clock.epoch (t.mint w.ledger a.output_token_mint) amount_out
    amount_received ← unwrap (checked_sub amount_out output_fee)
    require (ltb 0 amount_received) (anchor AnchorError.require_gt_violated)
    require (leb minimum_amount_out amount_received) (code ErrorCode.exceeded_slippage)
    ok (record {
      params = params;
      result = result;
      input_transfer_amount = amount_in;
      input_transfer_fee = transfer_fee;
      output_transfer_amount = amount_out;
      output_transfer_fee = output_fee;
      base_input = true;
    })

  -- `saturating_sub` is `-` on ℕ.
  unfoldable pub handle_base_input :
      Clock → SwapAccounts → ℕ → ℕ → World t → Result (World t × SwapEvent)
  handle_base_input clock a amount_in minimum_amount_out w = do
    validate_swap t a w
    check_open clock w.pool
    transfer_fee ← get_transfer_fee t clock.epoch (t.mint w.ledger a.input_token_mint) amount_in
    require (ltb 0 (amount_in - transfer_fee)) (anchor AnchorError.require_gt_violated)
    params ← params_of t a w
    constant_before ←
        unwrap
          (checked_mul u128_max params.total_input_token_amount params.total_output_token_amount)
    result ←
        none_to
          (swap_base_input (amount_in - transfer_fee) params.total_input_token_amount
            params.total_output_token_amount (rates_of config w.pool)
            params.is_creator_fee_on_input)
          (code ErrorCode.zero_trading_tokens)
    constant_after ←
        unwrap (checked_mul u128_max result.new_input_vault_amount result.new_output_vault_amount)
    quote ← quote_input clock a amount_in transfer_fee minimum_amount_out params result w
    settle t clock a quote constant_before constant_after w

  -- What the user pays and receives for an exact output, with the checks on the input.
  unfoldable pub quote_output :
      Clock → SwapAccounts → ℕ → ℕ → ℕ → SwapParams → SwapResult → World t → Result Quote
  quote_output clock a max_amount_in amount_out output_fee params result w = do
    input_amount ← to_u64 result.input_amount
    require (ltb 0 input_amount) (anchor AnchorError.require_gt_violated)
    input_fee ←
        get_transfer_inverse_fee t clock.epoch (t.mint w.ledger a.input_token_mint) input_amount
    input_transfer_amount ← unwrap (checked_add u64_max input_amount input_fee)
    require (leb input_transfer_amount max_amount_in) (code ErrorCode.exceeded_slippage)
    output_amount ← to_u64 result.output_amount
    require (output_amount == amount_out) (anchor AnchorError.require_eq_violated)
    ok (record {
      params = params;
      result = result;
      input_transfer_amount = input_transfer_amount;
      input_transfer_fee = input_fee;
      output_transfer_amount = amount_out;
      output_transfer_fee = output_fee;
      base_input = false;
    })

  unfoldable pub handle_base_output :
      Clock → SwapAccounts → ℕ → ℕ → World t → Result (World t × SwapEvent)
  handle_base_output clock a max_amount_in amount_out_received w = do
    validate_swap t a w
    require (ltb 0 amount_out_received) (anchor AnchorError.require_gt_violated)
    check_open clock w.pool
    output_fee ←
        get_transfer_inverse_fee t clock.epoch (t.mint w.ledger a.output_token_mint)
          amount_out_received
    amount_out ← unwrap (checked_add u64_max amount_out_received output_fee)
    params ← params_of t a w
    constant_before ←
        unwrap
          (checked_mul u128_max params.total_input_token_amount params.total_output_token_amount)
    result ←
        none_to
          (swap_base_output amount_out params.total_input_token_amount
            params.total_output_token_amount (rates_of config w.pool)
            params.is_creator_fee_on_input)
          (code ErrorCode.zero_trading_tokens)
    constant_after ←
        unwrap (checked_mul u128_max result.new_input_vault_amount result.new_output_vault_amount)
    quote ← quote_output clock a max_amount_in amount_out output_fee params result w
    settle t clock a quote constant_before constant_after w
