-- ===== src/Curve/FeeLaws.antt =====
-- What the fee functions of programs/cp-swap/src/curve/fees.rs compute.
use mim_swap_sol.Prelude.{
  ℕ, ◌+◌, ◌*◌, ◌/◌, ◌-◌, ◌≤◌, ◌<◌, ◌≡◌, some, arith, checked_add, checked_mul, checked_sub,
  checked_div, ok,
}
use native.Mathlib.Nat.{div-mul-le_self, lt-div-mul-add, mul-le-mul_left, le_of_mul-le-mul_right}
use mim_swap_sol.Curve.Fees.{
  fee_rate_denominator_value, ceil_div, floor_div, trading_fee, protocol_fee, fund_fee,
  split_creator_fee, calculate_pre_fee_amount,
}

-- `q` is the least number with `a ≤ q * d`.
abbrev pub IsCeil : ℕ → ℕ → ℕ → Type 0
IsCeil a d q = (a ≤ q * d) × (q * d < a + d)

-- `q` is the greatest number with `q * d ≤ a`.
abbrev pub IsFloor : ℕ → ℕ → ℕ → Type 0
IsFloor a d q = (q * d ≤ a) × (a < q * d + d)

pub div-IsFloor : (a d : ℕ) → 0 < d → IsFloor a d (a / d)
div-IsFloor a d h = (div-mul-le_self a d, lt-div-mul-add h)

pub round_up-IsCeil : (a d n : ℕ) → 0 < d → a + d ≡ 1 + n → IsCeil a d (n / d)
round_up-IsCeil a d n h e = omega (arith, div-IsFloor n d h)

pub floor_div-IsFloor :
    (a num den : ℕ) {q : ℕ} → floor_div a num den ≡ some q → IsFloor (a * num) den q × (0 < den)
unfolding floor_div checked_mul checked_div
floor_div-IsFloor a num den {q} h = ground (arith, div-IsFloor (a * num) den)

pub ceil_div-IsCeil :
    (a num den : ℕ) {q : ℕ} → ceil_div a num den ≡ some q → IsCeil (a * num) den q × (0 < den)
unfolding ceil_div checked_mul checked_div checked_add checked_sub
ceil_div-IsCeil a num den {q} h = ground (arith, round_up-IsCeil (a * num) den (a * num + den - 1))

-- The amount before a fee: the least `q` of which `rate` millionths can be taken and leave `post`.
abbrev pub IsPreFee : ℕ → ℕ → ℕ → Type 0
IsPreFee post rate q =
    (post * fee_rate_denominator_value ≤ q * (fee_rate_denominator_value - rate))
    × (q * (fee_rate_denominator_value - rate)
        < post * fee_rate_denominator_value + (fee_rate_denominator_value - rate))

pub calculate_pre_fee_amount-IsPreFee :
    (post rate : ℕ) {q : ℕ}
    → calculate_pre_fee_amount post rate ≡ some q
    → IsPreFee post rate q × (rate < fee_rate_denominator_value)
unfolding calculate_pre_fee_amount checked_mul checked_div checked_add checked_sub
calculate_pre_fee_amount-IsPreFee post rate {q} h = ground (
  arith,
  round_up-IsCeil (post * fee_rate_denominator_value) (fee_rate_denominator_value - rate)
      (post * fee_rate_denominator_value + (fee_rate_denominator_value - rate) - 1),
)

-- A fee at a rate of at most one is at most the amount.
pub trading_fee-le :
    (a rate : ℕ) {q : ℕ} → rate ≤ fee_rate_denominator_value → trading_fee a rate ≡ some q → q ≤ a
unfolding trading_fee
trading_fee-le a rate {q} h e = omega (
  arith,
  ceil_div-IsCeil a rate fee_rate_denominator_value e,
  mul-le-mul_left {m = rate} {n = fee_rate_denominator_value} a h,
)

pub split_creator_fee-le :
    (fee trade creator : ℕ) {q : ℕ} → split_creator_fee fee trade creator ≡ ok q → q ≤ fee
unfolding split_creator_fee checked_add
split_creator_fee-le fee trade creator {q} e = ground (
  arith,
  floor_div-IsFloor fee creator (trade + creator) {q = q},
  mul-le-mul_left {m = creator} {n = trade + creator} fee,
  le_of_mul-le-mul_right {m = q} {n = fee} {k = trade + creator},
)

-- The protocol's and the fund's parts of a trade fee are at most the fee.
pub fee_parts-le :
    (fee protocol fund : ℕ) {p f : ℕ}
    → protocol + fund ≤ fee_rate_denominator_value
    → protocol_fee fee protocol ≡ some p
    → fund_fee fee fund ≡ some f
    → p + f ≤ fee
unfolding protocol_fee fund_fee
fee_parts-le fee protocol fund {p} {f} h ep ef = omega (
  arith,
  floor_div-IsFloor fee protocol fee_rate_denominator_value ep,
  floor_div-IsFloor fee fund fee_rate_denominator_value ef,
  mul-le-mul_left {m = protocol + fund} {n = fee_rate_denominator_value} fee h,
)

-- The amount before a fee is at least the amount after it.
pub le-calculate_pre_fee_amount :
    (post rate : ℕ) {q : ℕ} → calculate_pre_fee_amount post rate ≡ some q → post ≤ q
le-calculate_pre_fee_amount post rate {q} e = omega (
  arith,
  calculate_pre_fee_amount-IsPreFee post rate e,
  mul-le-mul_left {m = fee_rate_denominator_value - rate} {n = fee_rate_denominator_value} q
      (omega arith),
)
