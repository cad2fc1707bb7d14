-- ===== src/Curve/Calculator.antt =====
-- programs/cp-swap/src/curve/calculator.rs. Rates are `u64`, amounts `u128`. An outcome with the
-- error `tt` is Rust's `None`. Plain `+` and `-` panic when they leave their type.
use mim_swap_sol.Prelude.{
  ℕ, ◌==◌, if◌then◌else◌, Bool, true, false, Option, none, some, u64_max, u128_max, checked_add,
  checked_sub, Outcome, ok, err, unwrap, try_some, ◌>>=◌,
}
use mim_swap_sol.Curve.Fees.{
  trading_fee, protocol_fee, fund_fee, creator_fee, split_creator_fee, calculate_pre_fee_amount,
}
use mim_swap_sol.Curve.ConstantProduct.{swap_base_input_without_fees, swap_base_output_without_fees}

pub record SwapResult : Type 0 where
  pub new_input_vault_amount : ℕ
  pub new_output_vault_amount : ℕ
  pub input_amount : ℕ
  pub output_amount : ℕ
  pub trade_fee : ℕ
  pub protocol_fee : ℕ
  pub fund_fee : ℕ
  pub creator_fee : ℕ

-- The rates of one swap: `AmmConfig`'s, with the creator's rate adjusted by the pool.
pub record Rates : Type 0 where
  pub trade : ℕ
  pub creator : ℕ
  pub protocol : ℕ
  pub fund : ℕ

-- What one side of a swap is charged: the trade fee, the creator's fee, and the amount beside them.
pub record Charge : Type 0 where
  pub trade_fee : ℕ
  pub creator_fee : ℕ
  pub amount : ℕ

unfoldable pub map_zero_to_none : ℕ → Option ℕ
map_zero_to_none x = if x == 0 then none else some x

unfoldable pub validate_supply {ℓ} : {E : Type ℓ} → E → ℕ → ℕ → Outcome E (Unit {0})
validate_supply empty_supply token_0_amount token_1_amount =
    if token_0_amount == 0
    then err empty_supply
    else if token_1_amount == 0
    then err empty_supply
    else ok tt

-- `swap_base_input`: the fees taken from the input, and `input_amount_less_fees`.
unfoldable pub input_charge : ℕ → Rates → Bool → Outcome (Unit {0}) Charge
input_charge input_amount rates true = do
  total_rate ← unwrap (checked_add u64_max rates.trade rates.creator)
  total_fee ← try_some (trading_fee input_amount total_rate)
  creator_fee ← split_creator_fee total_fee rates.trade rates.creator
  trade_fee ← unwrap (checked_sub total_fee creator_fee)
  less_fees ← try_some (checked_sub input_amount total_fee)
  ok (record { trade_fee = trade_fee; creator_fee = creator_fee; amount = less_fees })
input_charge input_amount rates false = do
  trade_fee ← try_some (trading_fee input_amount rates.trade)
  less_fees ← try_some (checked_sub input_amount trade_fee)
  ok (record { trade_fee = trade_fee; creator_fee = 0; amount = less_fees })

-- `swap_base_input`: the creator's fee and what is left of the output.
unfoldable pub output_charge : ℕ → Rates → Charge → Bool → Outcome (Unit {0}) Charge
output_charge output_amount_swapped rates charge true =
    ok (record charge { amount = output_amount_swapped })
output_charge output_amount_swapped rates charge false = do
  fee ← try_some (creator_fee output_amount_swapped rates.creator)
  left ← try_some (checked_sub output_amount_swapped fee)
  ok (record charge { creator_fee = fee; amount = left })

unfoldable pub swap_base_input : ℕ → ℕ → ℕ → Rates → Bool → Outcome (Unit {0}) SwapResult
swap_base_input input_amount input_vault_amount output_vault_amount rates is_creator_fee_on_input =
    do
      input ← input_charge input_amount rates is_creator_fee_on_input
      protocol ← try_some (protocol_fee input.trade_fee rates.protocol)
      fund ← try_some (fund_fee input.trade_fee rates.fund)
      swapped ← swap_base_input_without_fees input.amount input_vault_amount output_vault_amount
      output ← output_charge swapped rates input is_creator_fee_on_input
      new_input ← try_some (checked_add u128_max input_vault_amount input.amount)
      new_output ← try_some (checked_sub output_vault_amount swapped)
      ok (record {
        new_input_vault_amount = new_input;
        new_output_vault_amount = new_output;
        input_amount = input_amount;
        output_amount = output.amount;
        trade_fee = output.trade_fee;
        protocol_fee = protocol;
        fund_fee = fund;
        creator_fee = output.creator_fee;
      })

-- `swap_base_output`: the output that the curve gives up, with the creator's fee on it.
unfoldable pub gross_output : ℕ → Rates → Bool → Outcome (Unit {0}) Charge
gross_output output_amount rates true =
    ok (record { trade_fee = 0; creator_fee = 0; amount = output_amount })
gross_output output_amount rates false = do
  gross ← try_some (calculate_pre_fee_amount output_amount rates.creator)
  fee ← unwrap (checked_sub gross output_amount)
  ok (record { trade_fee = 0; creator_fee = fee; amount = gross })

-- `swap_base_output`: the input with its fees.
unfoldable pub gross_input : ℕ → Rates → Charge → Bool → Outcome (Unit {0}) Charge
gross_input input_amount_swapped rates charge true = do
  total_rate ← unwrap (checked_add u64_max rates.trade rates.creator)
  gross ← unwrap (calculate_pre_fee_amount input_amount_swapped total_rate)
  total_fee ← unwrap (checked_sub gross input_amount_swapped)
  creator_fee ← split_creator_fee total_fee rates.trade rates.creator
  trade_fee ← unwrap (checked_sub total_fee creator_fee)
  ok (record { trade_fee = trade_fee; creator_fee = creator_fee; amount = gross })
gross_input input_amount_swapped rates charge false = do
  gross ← unwrap (calculate_pre_fee_amount input_amount_swapped rates.trade)
  trade_fee ← unwrap (checked_sub gross input_amount_swapped)
  ok (record charge { trade_fee = trade_fee; amount = gross })

unfoldable pub swap_base_output : ℕ → ℕ → ℕ → Rates → Bool → Outcome (Unit {0}) SwapResult
swap_base_output output_amount input_vault_amount output_vault_amount rates
      is_creator_fee_on_input =
    do
      output ← gross_output output_amount rates is_creator_fee_on_input
      swapped ← swap_base_output_without_fees output.amount input_vault_amount output_vault_amount
      input ← gross_input swapped rates output is_creator_fee_on_input
      protocol ← try_some (protocol_fee input.trade_fee rates.protocol)
      fund ← try_some (fund_fee input.trade_fee rates.fund)
      new_input ← try_some (checked_add u128_max input_vault_amount swapped)
      new_output ← try_some (checked_sub output_vault_amount output.amount)
      ok (record {
        new_input_vault_amount = new_input;
        new_output_vault_amount = new_output;
        input_amount = input.amount;
        output_amount = output_amount;
        trade_fee = input.trade_fee;
        protocol_fee = protocol;
        fund_fee = fund;
        creator_fee = input.creator_fee;
      })
