-- ===== src/Tests/Swaps.antt =====
-- Swaps on the sample pool.
use mim_swap_sol.Prelude.{
  ◌+◌, ◌≤◌, ◌≡◌, refl, false, checked_add, checked_mul, checked_sub, checked_div, checked_rem,
  narrow, ok, arith,
}
use mim_swap_sol.Curve.Fees.{
  ceil_div, floor_div, trading_fee, protocol_fee, fund_fee, creator_fee, split_creator_fee,
  calculate_pre_fee_amount,
}
use mim_swap_sol.Curve.ConstantProduct.{
  checked_ceil_div, swap_base_input_without_fees, swap_base_output_without_fees,
}
use mim_swap_sol.Curve.Calculator.{
  input_charge, output_charge, swap_base_input, gross_output, gross_input, swap_base_output,
}
use mim_swap_sol.Token.Calls.{
  get_transfer_fee, get_transfer_inverse_fee, inverse_fee, transfer_from_user_to_pool_vault,
  transfer_from_pool_vault_to_user,
}
use mim_swap_sol.Token.Simple.{simple, simple-TransferLaws, transfer_checked}
use mim_swap_sol.States.Pool.{from_u8, get_status_by_bit, bit_mask}
use mim_swap_sol.States.PoolFees.{
  total_fees, vault_amount_without_fee, price_x32, token_price_x32, fee_on_input,
  is_creator_fee_on_input, zero_for_one_params, get_swap_params, adjust_creator_fee_rate,
  add_creator_fee, add_input_fees, update_fees,
}
use mim_swap_sol.States.Oracle.{default, start, update}
use mim_swap_sol.Swap.Accounts.{World, SwapAccounts, SwapEvent, validate_swap}
use mim_swap_sol.Swap.Settle.{check_open, swap_event, move_tokens, settle}
use mim_swap_sol.Swap.SettleLaws.{IsApart, amount}
use mim_swap_sol.Swap.Handlers.{quote_input, handle_base_input, quote_output, handle_base_output}
use mim_swap_sol.Swap.Safety.{
  KeepsProduct, handle_base_input-KeepsProduct, handle_base_output-KeepsProduct,
  handle_base_input-limits, handle_base_output-limits,
}
use mim_swap_sol.Tests.Sample.{clock, config, world, outcome}

-- Mint 0 comes in, mint 1 goes out.
abbrev pub accounts : SwapAccounts
accounts = record {
  payer = 6;
  authority = 1;
  amm_config = 2;
  pool_state = 9;
  input_token_account = 12;
  output_token_account = 13;
  input_vault = 10;
  output_vault = 11;
  input_token_program = 1;
  output_token_program = 5;
  input_token_mint = 20;
  output_token_mint = 21;
  observation_state = 4;
}

pub accounts-IsApart : IsApart accounts
accounts-IsApart = record {
  vaults = λ e. omega (arith, e);
  payer_in = λ e. omega (arith, e);
  payer_out = λ e. omega (arith, e);
  receiver_in = λ e. omega (arith, e);
  receiver_out = λ e. omega (arith, e);
}

abbrev no_event : SwapEvent
no_event = record {
  pool_id = 0;
  input_vault_before = 0;
  output_vault_before = 0;
  input_amount = 0;
  output_amount = 0;
  input_transfer_fee = 0;
  output_transfer_fee = 0;
  base_input = false;
  input_mint = 0;
  output_mint = 0;
  trade_fee = 0;
  creator_fee = 0;
  creator_fee_on_input = false;
}

abbrev pub input_run : World simple × SwapEvent
input_run =
    outcome (world, no_event) (handle_base_input simple config clock accounts 10_000 19_000 world)

abbrev output_run : World simple × SwapEvent
output_run =
    outcome (world, no_event) (handle_base_output simple config clock accounts 11_000 19_000 world)

pub input_runs :
    handle_base_input simple config clock accounts 10_000 19_000 world
    ≡ ok (input_run.0, input_run.1)
unfolding handle_base_input validate_swap check_open get_status_by_bit bit_mask get_transfer_fee
    get_swap_params zero_for_one_params vault_amount_without_fee total_fees token_price_x32
    price_x32 is_creator_fee_on_input from_u8 fee_on_input swap_base_input input_charge
    output_charge trading_fee protocol_fee fund_fee creator_fee split_creator_fee ceil_div floor_div
    swap_base_input_without_fees adjust_creator_fee_rate quote_input settle update_fees
    add_input_fees add_creator_fee swap_event move_tokens transfer_from_user_to_pool_vault
    transfer_from_pool_vault_to_user transfer_checked update start default checked_add checked_mul
    checked_sub checked_div checked_rem narrow
input_runs = refl

output_runs :
    handle_base_output simple config clock accounts 11_000 19_000 world
    ≡ ok (output_run.0, output_run.1)
unfolding handle_base_output validate_swap check_open get_status_by_bit bit_mask
    get_transfer_inverse_fee inverse_fee get_swap_params zero_for_one_params
    vault_amount_without_fee total_fees token_price_x32 price_x32 is_creator_fee_on_input from_u8
    fee_on_input swap_base_output gross_output gross_input calculate_pre_fee_amount trading_fee
    protocol_fee fund_fee creator_fee split_creator_fee ceil_div floor_div
    swap_base_output_without_fees checked_ceil_div adjust_creator_fee_rate quote_output settle
    update_fees add_input_fees add_creator_fee swap_event move_tokens
    transfer_from_user_to_pool_vault transfer_from_pool_vault_to_user transfer_checked update start
    default checked_add checked_mul checked_sub checked_div checked_rem narrow
output_runs = refl

handle_base_input-KeepsProduct_example : KeepsProduct simple world input_run.0
handle_base_input-KeepsProduct_example =
    handle_base_input-KeepsProduct simple simple-TransferLaws config clock accounts world 10_000
      19_000 (omega arith) accounts-IsApart input_runs

handle_base_output-KeepsProduct_example : KeepsProduct simple world output_run.0
handle_base_output-KeepsProduct_example =
    handle_base_output-KeepsProduct simple simple-TransferLaws config clock accounts world 11_000
      19_000 (omega arith) accounts-IsApart output_runs

handle_base_input-limits_example :
    (amount simple world.ledger 12 ≡ amount simple input_run.0.ledger 12 + 10_000)
    × (amount simple world.ledger 13 + 19_000 ≤ amount simple input_run.0.ledger 13)
handle_base_input-limits_example =
    handle_base_input-limits simple simple-TransferLaws config clock accounts world 10_000 19_000
      accounts-IsApart (λ e. omega (arith, e)) input_runs

handle_base_output-limits_example :
    (amount simple world.ledger 12 ≤ amount simple output_run.0.ledger 12 + 11_000)
    × (amount simple world.ledger 13 + 19_000 ≤ amount simple output_run.0.ledger 13)
handle_base_output-limits_example =
    handle_base_output-limits simple simple-TransferLaws config clock accounts world 11_000 19_000
      accounts-IsApart (λ e. omega (arith, e)) output_runs
