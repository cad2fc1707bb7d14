-- ===== src/Curve/Exchange.antt =====
-- The constant-product exchanges of programs/cp-swap/src/curve/constant_product.rs, without fees.
use mim_swap_sol.Prelude.{
  ℕ, ◌+◌, ◌*◌, ◌/◌, ◌%◌, ◌-◌, ◌≤◌, ◌<◌, ◌≡◌, ◌≢◌, ap, some, arith, checked_add, checked_mul,
  checked_sub, checked_div, checked_rem, ok,
}
use native.Mathlib.Nat.{div-add-mod, lt_of_mul-lt-mul_right}
use mim_swap_sol.Curve.FeeLaws.{IsCeil, IsFloor, div-IsFloor}
use mim_swap_sol.Curve.ConstantProduct.{
  checked_ceil_div, swap_base_input_without_fees, swap_base_output_without_fees,
}

pub div-IsCeil : (a d : ℕ) → 0 < d → a % d ≡ 0 → IsCeil a d (a / d)
div-IsCeil a d h e = omega (arith, div-IsFloor a d h, div-add-mod a d)

pub suc-div-IsCeil : (a d : ℕ) → 0 < d → a % d ≢ 0 → IsCeil a d (a / d + 1)
suc-div-IsCeil a d h e = omega (arith, div-IsFloor a d h, div-add-mod a d)

pub checked_ceil_div-IsCeil :
    (a d : ℕ) {q : ℕ} → checked_ceil_div a d ≡ some q → IsCeil a d q × (0 < d)
unfolding checked_ceil_div checked_div checked_rem checked_add
checked_ceil_div-IsCeil a d {q} h = ground (arith, div-IsCeil a d, suc-div-IsCeil a d)

module _ {ℓ} {E : Type ℓ} (amount x y : ℕ) {out : ℕ} where
  pub base_input-IsFloor :
      swap_base_input_without_fees {E = E} amount x y ≡ ok out
      → IsFloor (amount * y) (x + amount) out × (0 < x + amount)
  unfolding swap_base_input_without_fees checked_mul checked_add checked_div
  base_input-IsFloor h = ground (arith, div-IsFloor (amount * y) (x + amount))

  pub base_output-IsCeil :
      swap_base_output_without_fees {E = E} amount x y ≡ ok out
      → IsCeil (x * amount) (y - amount) out × (amount < y)
  unfolding swap_base_output_without_fees checked_mul checked_sub
  base_output-IsCeil h = ground (arith, checked_ceil_div-IsCeil (x * amount) (y - amount) {q = out})

-- A floor of the curve leaves the product of the vaults at least as large.
pub floor_keeps_product :
    (x y amount out rest : ℕ)
    → IsFloor (amount * y) (x + amount) out
    → y ≡ out + rest
    → x * y ≤ (x + amount) * rest
floor_keeps_product x y amount out rest h e =
    omega (arith, ap (λ (t : ℕ). amount * t) e, ap (λ (t : ℕ). x * t) e)

pub ceil_keeps_product :
    (x y amount paid rest : ℕ)
    → IsCeil (x * amount) (y - amount) paid
    → y ≡ amount + rest
    → x * y ≤ (x + paid) * rest
ceil_keeps_product x y amount paid rest h e =
    let d : y - amount ≡ rest = omega arith in
    omega (arith, ap (λ (t : ℕ). paid * t) d, ap (λ (t : ℕ). x * t) e)

-- What the curve gives for an input can be bought back for no more than that input.
pub buy_back-le :
    (x y amount out paid : ℕ)
    → IsFloor (amount * y) (x + amount) out
    → out < y
    → IsCeil (x * out) (y - out) paid
    → paid ≤ amount
buy_back-le x y amount out paid floor below ceil =
    let rest : y ≡ out + (y - out) = omega arith in
    let bound : paid * (y - out) < (amount + 1) * (y - out) =
      omega (arith, ap (λ (t : ℕ). amount * t) rest) in
    omega (arith, lt_of_mul-lt-mul_right (y - out) bound)

-- What the curve gives for an input in one direction can be bought for no more than that input, at
-- the same vaults: where the exchange of an input gives `out`, and the exchange that asks for `out`
-- succeeds, the latter costs at most the input.
pub base_output-base_input_le {ℓ κ} :
    {E : Type ℓ} {F : Type κ} (amount x y : ℕ) {out paid : ℕ}
    → swap_base_input_without_fees {E = E} amount x y ≡ ok out
    → swap_base_output_without_fees {E = F} out x y ≡ ok paid
    → paid ≤ amount
base_output-base_input_le amount x y {out} {paid} there back =
    let (floor, _) = base_input-IsFloor amount x y there in
    let (ceil, below) = base_output-IsCeil out x y back in
    buy_back-le x y amount out paid floor below ceil
