-- ===== src/Tests/Maths.antt =====
-- The curve and the swap calculator at concrete amounts.
use mim_swap_sol.Prelude.{
  ◌≤◌, ◌≡◌, refl, inl, true, false, checked_add, checked_mul, checked_sub, checked_div, checked_rem,
  Outcome, ok, err, arith,
}
use mim_swap_sol.Curve.Fees.{
  ceil_div, floor_div, trading_fee, protocol_fee, fund_fee, split_creator_fee,
  calculate_pre_fee_amount,
}
use mim_swap_sol.Curve.ConstantProduct.{
  checked_ceil_div, swap_base_input_without_fees, swap_base_output_without_fees,
}
use mim_swap_sol.Curve.Exchange.{base_output-base_input_le}
use mim_swap_sol.Curve.Calculator.{
  SwapResult, Rates, input_charge, output_charge, swap_base_input, gross_output, gross_input,
  swap_base_output,
}
use mim_swap_sol.Curve.SwapLaws.{
  IsFairSwap, swap_base_input-IsFairSwap, swap_base_output-IsFairSwap,
}
use mim_swap_sol.Curve.Totality.{swap_base_input-total, swap_base_input_zero_rates}

abbrev rates : Rates
rates = record { trade = 2_500; creator = 1_000; protocol = 120_000; fund = 40_000 }

abbrev result : Outcome (Unit {0}) SwapResult → SwapResult
result (ok r) = r
result _ = record {
  new_input_vault_amount = 0;
  new_output_vault_amount = 0;
  input_amount = 0;
  output_amount = 0;
  trade_fee = 0;
  protocol_fee = 0;
  fund_fee = 0;
  creator_fee = 0;
}

abbrev bought : SwapResult
bought = result (swap_base_input 10_000 1_000_000 2_000_000 rates true)

abbrev sold : SwapResult
sold = result (swap_base_output 19_000 1_000_000 2_000_000 rates false)

bought_runs : swap_base_input 10_000 1_000_000 2_000_000 rates true ≡ ok bought
unfolding swap_base_input input_charge output_charge trading_fee protocol_fee fund_fee
    split_creator_fee ceil_div floor_div swap_base_input_without_fees checked_add checked_mul
    checked_sub checked_div
bought_runs = refl

sold_runs : swap_base_output 19_000 1_000_000 2_000_000 rates false ≡ ok sold
unfolding swap_base_output gross_output gross_input calculate_pre_fee_amount protocol_fee fund_fee
    floor_div swap_base_output_without_fees checked_ceil_div checked_add checked_mul checked_sub
    checked_div checked_rem
sold_runs = refl

swap_base_input-IsFairSwap_example : IsFairSwap 1_000_000 2_000_000 true bought
swap_base_input-IsFairSwap_example =
    swap_base_input-IsFairSwap 10_000 1_000_000 2_000_000 rates true bought_runs

swap_base_output-IsFairSwap_example : IsFairSwap 1_000_000 2_000_000 false sold
swap_base_output-IsFairSwap_example =
    swap_base_output-IsFairSwap 19_000 1_000_000 2_000_000 rates false sold_runs

swap_base_input-total_example :
    (r : SwapResult) × (swap_base_input 10_000 1_000_000 2_000_000 rates true ≡ ok r)
swap_base_input-total_example =
    swap_base_input-total 10_000 1_000_000 2_000_000 rates true (omega arith) (omega arith)
      (omega arith) (omega arith) (omega arith) (omega arith) (inl (omega arith))

abbrev free : Rates
free = record { trade = 0; creator = 0; protocol = 120_000; fund = 40_000 }

swap_base_input_zero_rates_example : swap_base_input 10_000 1_000_000 2_000_000 free true ≡ err tt
swap_base_input_zero_rates_example =
    swap_base_input_zero_rates 10_000 1_000_000 2_000_000 free refl refl

there : swap_base_input_without_fees {E = Unit {0}} 10_000 1_000_000 2_000_000 ≡ ok 19_801
unfolding swap_base_input_without_fees checked_add checked_mul checked_div
there = refl

back : swap_base_output_without_fees {E = Unit {0}} 19_801 1_000_000 2_000_000 ≡ ok 10_000
unfolding swap_base_output_without_fees checked_ceil_div checked_add checked_mul checked_sub
    checked_div checked_rem
back = refl

base_output-base_input_le_example : ◌≤◌ 10_000 10_000
base_output-base_input_le_example = base_output-base_input_le 10_000 1_000_000 2_000_000 there back
