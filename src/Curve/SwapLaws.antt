-- ===== src/Curve/SwapLaws.antt =====
-- What a swap of programs/cp-swap/src/curve/calculator.rs does, in either mode.
use mim_swap_sol.Prelude.{
  ℕ, ◌+◌, ◌*◌, ◌≤◌, ◌≡◌, arith, Bool, true, false, if◌then◌else◌, checked_add, checked_sub, ok,
}
use mim_swap_sol.Curve.Fees.{fee_rate_denominator_value}
use mim_swap_sol.Curve.FeeLaws.{fee_parts-le}
use mim_swap_sol.Curve.Traces.{swap_base_input-trace, swap_base_output-trace}
use mim_swap_sol.Curve.Exchange.{
  base_input-IsFloor, base_output-IsCeil, floor_keeps_product, ceil_keeps_product,
}
use mim_swap_sol.Curve.Calculator.{
  SwapResult, Rates, Charge, input_charge, output_charge, swap_base_input, gross_output,
  gross_input, swap_base_output,
}

-- The contract that both modes of a swap keep with the pool: every unit that comes in or goes out
-- is in a vault or in a fee, and the product of the vaults net of fees does not fall.
pub record IsFairSwap (x y : ℕ) (on_input : Bool) (r : SwapResult) : Type 0 where
  pub input_split :
      r.input_amount + x
      ≡ r.new_input_vault_amount + r.trade_fee + (if on_input then r.creator_fee else 0)
  pub output_split :
      y ≡ r.new_output_vault_amount + r.output_amount + (if on_input then 0 else r.creator_fee)
  pub product : x * y ≤ r.new_input_vault_amount * r.new_output_vault_amount

pub input_charge_split :
    (input : ℕ) (rates : Rates) (on_input : Bool) {c : Charge}
    → input_charge input rates on_input ≡ ok c
    → (input ≡ c.amount + c.trade_fee + c.creator_fee) × (on_input ≡ false → c.creator_fee ≡ 0)
unfolding input_charge checked_add checked_sub
input_charge_split input rates true {c} h = ground arith
input_charge_split input rates false {c} h = ground arith

pub output_charge_split :
    (swapped : ℕ) (rates : Rates) (charge : Charge) (on_input : Bool) {c : Charge}
    → output_charge swapped rates charge on_input ≡ ok c
    → (swapped ≡ c.amount + (if on_input then 0 else c.creator_fee))
      × (c.trade_fee ≡ charge.trade_fee)
      × (on_input ≡ true → c.creator_fee ≡ charge.creator_fee)
unfolding output_charge checked_sub
output_charge_split swapped rates charge true {c} h = ground arith
output_charge_split swapped rates charge false {c} h = ground arith

pub gross_output_split :
    (out : ℕ) (rates : Rates) (on_input : Bool) {c : Charge}
    → gross_output out rates on_input ≡ ok c
    → c.amount ≡ out + c.creator_fee
unfolding gross_output checked_sub
gross_output_split out rates true {c} h = ground arith
gross_output_split out rates false {c} h = ground arith

pub gross_input_split :
    (swapped : ℕ) (rates : Rates) (charge : Charge) (on_input : Bool) {c : Charge}
    → gross_input swapped rates charge on_input ≡ ok c
    → (c.amount ≡ swapped + c.trade_fee + (if on_input then c.creator_fee else 0))
      × (on_input ≡ false → c.creator_fee ≡ charge.creator_fee)
unfolding gross_input checked_sub
gross_input_split swapped rates charge true {c} h = ground arith
gross_input_split swapped rates charge false {c} h = ground arith

gross_output_on_input :
    (out : ℕ) (rates : Rates) {c : Charge} → gross_output out rates true ≡ ok c → c.creator_fee ≡ 0
unfolding gross_output
gross_output_on_input out rates {c} h = ground arith

-- A swap with an exact input that succeeds is fair: the input and the input vault are the new vault
-- and the fees on the input, the output vault is the new vault, the output and a creator's fee on
-- it, and the product of the vaults does not fall.
pub swap_base_input-IsFairSwap :
    (input x y : ℕ) (rates : Rates) (on_input : Bool) {r : SwapResult}
    → swap_base_input input x y rates on_input ≡ ok r
    → IsFairSwap x y on_input r
swap_base_input-IsFairSwap input x y rates on_input {r} h =
    let t = swap_base_input-trace input x y rates on_input h in
    let split = input_charge_split input rates on_input t.charged in
    let paid = output_charge_split t.swapped rates t.charge on_input t.paid in
    let floor = (base_input-IsFloor t.charge.amount x y t.exchanged).0 in
    let product =
      floor_keeps_product x y t.charge.amount t.swapped r.new_output_vault_amount floor
        t.new_output in
    record { input_split = ground arith; output_split = ground arith; product = ground arith }

-- A swap with an exact output that succeeds is fair: the input and the input vault are the new vault
-- and the fees on the input, the output vault is the new vault, the output and a creator's fee on
-- it, and the product of the vaults does not fall.
pub swap_base_output-IsFairSwap :
    (out x y : ℕ) (rates : Rates) (on_input : Bool) {r : SwapResult}
    → swap_base_output out x y rates on_input ≡ ok r
    → IsFairSwap x y on_input r
swap_base_output-IsFairSwap out x y rates on_input {r} h =
    let t = swap_base_output-trace out x y rates on_input h in
    let split = gross_output_split out rates on_input t.raised in
    let alone = gross_output_on_input out rates {c = t.gross} in
    let paid = gross_input_split t.swapped rates t.gross on_input t.charged in
    let ceil = (base_output-IsCeil t.gross.amount x y t.exchanged).0 in
    let product =
      ceil_keeps_product x y t.gross.amount t.swapped r.new_output_vault_amount ceil t.new_output in
    record { input_split = ground arith; output_split = ground arith; product = ground arith }

pub swap_base_input-fee_parts :
    (input x y : ℕ) (rates : Rates) (on_input : Bool) {r : SwapResult}
    → rates.protocol + rates.fund ≤ fee_rate_denominator_value
    → swap_base_input input x y rates on_input ≡ ok r
    → (r.protocol_fee + r.fund_fee ≤ r.trade_fee) × (r.input_amount ≡ input)
swap_base_input-fee_parts input x y rates on_input {r} bound h =
    let t = swap_base_input-trace input x y rates on_input h in
    let paid = output_charge_split t.swapped rates t.charge on_input t.paid in
    let parts = fee_parts-le t.charge.trade_fee rates.protocol rates.fund bound t.protocol t.fund in
    (ground arith, t.input_amount)

pub swap_base_output-fee_parts :
    (out x y : ℕ) (rates : Rates) (on_input : Bool) {r : SwapResult}
    → rates.protocol + rates.fund ≤ fee_rate_denominator_value
    → swap_base_output out x y rates on_input ≡ ok r
    → (r.protocol_fee + r.fund_fee ≤ r.trade_fee) × (r.output_amount ≡ out)
swap_base_output-fee_parts out x y rates on_input {r} bound h =
    let t = swap_base_output-trace out x y rates on_input h in
    let parts = fee_parts-le t.input.trade_fee rates.protocol rates.fund bound t.protocol t.fund in
    (ground arith, t.output_amount)
