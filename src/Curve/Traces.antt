-- ===== src/Curve/Traces.antt =====
-- The intermediate values of a swap of programs/cp-swap/src/curve/calculator.rs that succeeds.
use mim_swap_sol.Prelude.{
  ℕ, ◌+◌, ◌≡◌, some, arith, Bool, checked_add, checked_sub, ok, >>=-eq_ok, try_some,
}
use mim_swap_sol.Curve.Fees.{protocol_fee, fund_fee}
use mim_swap_sol.Curve.ConstantProduct.{swap_base_input_without_fees, swap_base_output_without_fees}
use mim_swap_sol.Curve.Calculator.{
  SwapResult, Rates, Charge, input_charge, output_charge, swap_base_input, gross_output,
  gross_input, swap_base_output,
}

-- `swap_base_input`.
pub record InputTrace (input x y : ℕ) (rates : Rates) (on_input : Bool) (r : SwapResult)
    : Type 0 where
  pub charge : Charge
  pub output : Charge
  pub swapped : ℕ
  pub charged : input_charge input rates on_input ≡ ok charge
  pub protocol : protocol_fee charge.trade_fee rates.protocol ≡ some r.protocol_fee
  pub fund : fund_fee charge.trade_fee rates.fund ≡ some r.fund_fee
  pub exchanged : swap_base_input_without_fees {E = Unit {0}} charge.amount x y ≡ ok swapped
  pub paid : output_charge swapped rates charge on_input ≡ ok output
  pub new_input : r.new_input_vault_amount ≡ x + charge.amount
  pub new_output : y ≡ swapped + r.new_output_vault_amount
  pub input_amount : r.input_amount ≡ input
  pub output_amount : r.output_amount ≡ output.amount
  pub trade_fee : r.trade_fee ≡ output.trade_fee
  pub creator_fee : r.creator_fee ≡ output.creator_fee

pub swap_base_input-trace :
    (input x y : ℕ) (rates : Rates) (on_input : Bool) {r : SwapResult}
    → swap_base_input input x y rates on_input ≡ ok r
    → InputTrace input x y rates on_input r
unfolding swap_base_input checked_add checked_sub
swap_base_input-trace input x y rates on_input {r} h =
    let (charge, e0, h0) = >>=-eq_ok (input_charge input rates on_input) _ h in
    let (protocol, e1, h1) =
      >>=-eq_ok (try_some (protocol_fee charge.trade_fee rates.protocol)) _ h0 in
    let (fund, e2, h2) = >>=-eq_ok (try_some (fund_fee charge.trade_fee rates.fund)) _ h1 in
    let (swapped, e3, h3) = >>=-eq_ok _ _ h2 in
    let (output, e4, h4) = >>=-eq_ok _ _ h3 in
    record {
      charge = charge;
      output = output;
      swapped = swapped;
      charged = e0;
      protocol = ground arith;
      fund = ground arith;
      exchanged = e3;
      paid = e4;
      new_input = ground arith;
      new_output = ground arith;
      input_amount = ground arith;
      output_amount = ground arith;
      trade_fee = ground arith;
      creator_fee = ground arith;
    }

-- `swap_base_output`.
pub record OutputTrace (out x y : ℕ) (rates : Rates) (on_input : Bool) (r : SwapResult)
    : Type 0 where
  pub gross : Charge
  pub input : Charge
  pub swapped : ℕ
  pub raised : gross_output out rates on_input ≡ ok gross
  pub exchanged : swap_base_output_without_fees {E = Unit {0}} gross.amount x y ≡ ok swapped
  pub charged : gross_input swapped rates gross on_input ≡ ok input
  pub protocol : protocol_fee input.trade_fee rates.protocol ≡ some r.protocol_fee
  pub fund : fund_fee input.trade_fee rates.fund ≡ some r.fund_fee
  pub new_input : r.new_input_vault_amount ≡ x + swapped
  pub new_output : y ≡ gross.amount + r.new_output_vault_amount
  pub input_amount : r.input_amount ≡ input.amount
  pub output_amount : r.output_amount ≡ out
  pub trade_fee : r.trade_fee ≡ input.trade_fee
  pub creator_fee : r.creator_fee ≡ input.creator_fee

pub swap_base_output-trace :
    (out x y : ℕ) (rates : Rates) (on_input : Bool) {r : SwapResult}
    → swap_base_output out x y rates on_input ≡ ok r
    → OutputTrace out x y rates on_input r
unfolding swap_base_output checked_add checked_sub
swap_base_output-trace out x y rates on_input {r} h =
    let (gross, e0, h0) = >>=-eq_ok (gross_output out rates on_input) _ h in
    let (swapped, e1, h1) =
      >>=-eq_ok (swap_base_output_without_fees {E = Unit {0}} gross.amount x y) _ h0 in
    let (input, e2, h2) = >>=-eq_ok (gross_input swapped rates gross on_input) _ h1 in
    let (protocol, e3, h3) =
      >>=-eq_ok (try_some (protocol_fee input.trade_fee rates.protocol)) _ h2 in
    let (fund, e4, h4) = >>=-eq_ok (try_some (fund_fee input.trade_fee rates.fund)) _ h3 in
    record {
      gross = gross;
      input = input;
      swapped = swapped;
      raised = e0;
      exchanged = e1;
      charged = e2;
      protocol = ground arith;
      fund = ground arith;
      new_input = ground arith;
      new_output = ground arith;
      input_amount = ground arith;
      output_amount = ground arith;
      trade_fee = ground arith;
      creator_fee = ground arith;
    }
