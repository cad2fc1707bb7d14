-- ===== src/Curve/Totality.antt =====
-- When the swaps of programs/cp-swap/src/curve/calculator.rs go through, and when they cannot.
use mim_swap_sol.Prelude.{
  ℕ, ◌+◌, ◌*◌, ◌/◌, ◌-◌, ◌≤◌, ◌<◌, ◌≡◌, ◌⊎◌, refl, some, arith, u64_max, u128_max, Bool, true,
  false, checked_add, checked_mul, checked_sub, checked_div, ok, err,
}
use native.Mathlib.Nat.{mul-le-mul, div-le_of_le-mul}
use mim_swap_sol.Curve.Fees.{
  fee_rate_denominator_value, ceil_div, floor_div, trading_fee, protocol_fee, fund_fee, creator_fee,
  split_creator_fee,
}
use mim_swap_sol.Curve.FeeLaws.{trading_fee-le, split_creator_fee-le}
use mim_swap_sol.Curve.ConstantProduct.{swap_base_input_without_fees}
use mim_swap_sol.Curve.Calculator.{
  SwapResult, Rates, Charge, input_charge, output_charge, swap_base_input,
}

ceil_div-total :
    (a num den : ℕ)
    → 0 < den
    → a * num + den ≤ u128_max
    → ceil_div a num den ≡ some ((a * num + den - 1) / den)
unfolding ceil_div checked_mul checked_add checked_sub checked_div
ceil_div-total a num den h bound = ground arith

floor_div-total :
    (a num den : ℕ) → 0 < den → a * num ≤ u128_max → floor_div a num den ≡ some (a * num / den)
unfolding floor_div checked_mul checked_div
floor_div-total a num den h bound = ground arith

-- A product of a `u64` and a rate of at most one is far below `u128::MAX`.
rate_product :
    (a rate : ℕ)
    → a ≤ u64_max
    → rate ≤ fee_rate_denominator_value
    → a * rate ≤ u64_max * fee_rate_denominator_value
rate_product a rate h k = mul-le-mul h k

trading_fee-total :
    (a rate : ℕ)
    → a ≤ u64_max
    → rate ≤ fee_rate_denominator_value
    → (q : ℕ) × (trading_fee a rate ≡ some q) × (q ≤ a)
unfolding trading_fee
trading_fee-total a rate h k =
    let e =
      ceil_div-total a rate fee_rate_denominator_value (omega arith)
        (omega (arith, rate_product a rate h k)) in
    (_, e, unfold trading_fee in trading_fee-le a rate k e)

part-total :
    (a rate : ℕ)
    → a ≤ u64_max
    → rate ≤ fee_rate_denominator_value
    → floor_div a rate fee_rate_denominator_value ≡ some (a * rate / fee_rate_denominator_value)
part-total a rate h k =
    floor_div-total a rate fee_rate_denominator_value (omega arith)
      (omega (arith, rate_product a rate h k))

split_creator_fee-total :
    (fee trade creator : ℕ)
    → fee ≤ u64_max
    → 0 < trade + creator
    → trade + creator ≤ fee_rate_denominator_value
    → (q : ℕ) × (split_creator_fee fee trade creator ≡ ok q) × (q ≤ fee)
unfolding split_creator_fee checked_add
split_creator_fee-total fee trade creator h pos k =
    let e =
      floor_div-total fee creator (trade + creator) pos
        (omega (arith, rate_product fee creator h (omega arith))) in
    let run : split_creator_fee fee trade creator ≡ ok (fee * creator / (trade + creator)) =
      ground arith in
    (_, run, split_creator_fee-le fee trade creator run)

-- The fees can be taken from the input.
input_charge-total :
    (input : ℕ) (rates : Rates) (on_input : Bool)
    → input ≤ u64_max
    → rates.trade + rates.creator < fee_rate_denominator_value
    → (0 < rates.trade + rates.creator) ⊎ (on_input ≡ false)
    → (c : Charge) × (input_charge input rates on_input ≡ ok c)
      × (c.amount ≤ input)
      × (c.trade_fee ≤ input)
unfolding input_charge checked_add checked_sub
input_charge-total input rates true h k pos =
    let (fee, e, le) = trading_fee-total input (rates.trade + rates.creator) h (omega arith) in
    let (creator, e', le') =
      split_creator_fee-total fee rates.trade rates.creator (omega arith) (ground arith)
        (omega arith) in
    (
      record { trade_fee = fee - creator; creator_fee = creator; amount = input - fee },
      ground arith,
      omega arith,
      omega arith,
    )
input_charge-total input rates false h k pos =
    let (fee, e, le) = trading_fee-total input rates.trade h (omega arith) in
    (
      record { trade_fee = fee; creator_fee = 0; amount = input - fee },
      ground arith,
      omega arith,
      omega arith,
    )

exchange-total :
    (amount x y : ℕ)
    → amount ≤ u64_max
    → x ≤ u64_max
    → y ≤ u64_max
    → 0 < x
    → (out : ℕ) × (swap_base_input_without_fees {E = Unit {0}} amount x y ≡ ok out) × (out ≤ y)
unfolding swap_base_input_without_fees checked_mul checked_add checked_div
exchange-total amount x y ha hx hy pos =
    let bound : amount * y ≤ u64_max * u64_max = mul-le-mul ha hy in
    (amount * y / (x + amount), ground arith, div-le_of_le-mul (x + amount) (omega arith))

output_charge-total :
    (swapped : ℕ) (rates : Rates) (charge : Charge) (on_input : Bool)
    → swapped ≤ u64_max
    → rates.creator ≤ fee_rate_denominator_value
    → (c : Charge) × (output_charge swapped rates charge on_input ≡ ok c)
unfolding output_charge checked_sub
output_charge-total swapped rates charge true h k = (record charge { amount = swapped }, refl)
output_charge-total swapped rates charge false h k =
    let (fee, e, le) = trading_fee-total swapped rates.creator h k in
    (
      record charge { creator_fee = fee; amount = swapped - fee },
      unfold creator_fee trading_fee in ground arith,
    )

-- A swap with an exact input goes through for every `u64` input and every pair of nonempty vaults,
-- under rates that the configuration admits, but for the case that both rates are 0 and the
-- creator's fee is on the input.
pub swap_base_input-total :
    (input x y : ℕ) (rates : Rates) (on_input : Bool)
    → input ≤ u64_max
    → x ≤ u64_max
    → y ≤ u64_max
    → 0 < x
    → rates.trade + rates.creator < fee_rate_denominator_value
    → rates.protocol + rates.fund ≤ fee_rate_denominator_value
    → (0 < rates.trade + rates.creator) ⊎ (on_input ≡ false)
    → (r : SwapResult) × (swap_base_input input x y rates on_input ≡ ok r)
unfolding swap_base_input protocol_fee fund_fee checked_add checked_sub
swap_base_input-total input x y rates on_input hi hx hy pos charge_rates part_rates nonzero =
    let (c, e0, less, fee) = input_charge-total input rates on_input hi charge_rates nonzero in
    let p = part-total c.trade_fee rates.protocol (omega arith) (omega arith) in
    let f = part-total c.trade_fee rates.fund (omega arith) (omega arith) in
    let (out, e1, le) = exchange-total c.amount x y (omega arith) hx hy pos in
    let (o, e2) = output_charge-total out rates c on_input (omega arith) (omega arith) in
    let r : SwapResult = record {
      new_input_vault_amount = x + c.amount;
      new_output_vault_amount = y - out;
      input_amount = input;
      output_amount = o.amount;
      trade_fee = o.trade_fee;
      protocol_fee = c.trade_fee * rates.protocol / fee_rate_denominator_value;
      fund_fee = c.trade_fee * rates.fund / fee_rate_denominator_value;
      creator_fee = o.creator_fee;
    } in
    (r, rw (e0, p, f, e1, e2) (ground arith))

zero_rate_fee : (input : ℕ) → trading_fee input 0 ≡ some 0
unfolding trading_fee ceil_div checked_mul checked_add checked_sub checked_div
zero_rate_fee input = ground arith

no_split : (fee : ℕ) → split_creator_fee fee 0 0 ≡ err tt
unfolding split_creator_fee floor_div checked_add
no_split fee = refl

-- With both rates at 0 and the creator's fee on the input, a swap with an exact input is refused
-- whatever the amounts are: the fee is to be split in the proportion of two zeros.
pub swap_base_input_zero_rates :
    (input x y : ℕ) (rates : Rates)
    → rates.trade ≡ 0
    → rates.creator ≡ 0
    → swap_base_input input x y rates true ≡ err tt
unfolding swap_base_input input_charge checked_add
swap_base_input_zero_rates input x y rates ht hc =
    rw (ht, hc) (rw (zero_rate_fee input) (rw (no_split 0)))
