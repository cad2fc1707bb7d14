-- ===== src/Treasury/Pricing.antt =====
-- The prices of Mana (programs/mana-treasury/src/lib.rs): what a deposit mints and what a redemption
-- pays, and that neither dilutes the others.
use mim_swap_sol.Prelude.{
  ℕ, ◌+◌, ◌*◌, ◌-◌, ◌≤◌, ◌<◌, ◌≡◌, ◌⊎◌, inl, inr, ap, checked_mul, checked_div, narrow, ok, arith,
}
use native.Mathlib.Nat.{lt_of_mul-lt-mul_right, mul-le-mul_right}
use mim_swap_sol.Curve.FeeLaws.{IsFloor, div-IsFloor}
use mim_swap_sol.Treasury.State.{calculate_mana_for_deposit, calculate_mim_for_redemption}

-- What a deposit mints: as much Mana as MIM when there is no active Mana, and otherwise its share of
-- the active Mana by the active MIM, rounded down.
abbrev pub IsDepositPrice : ℕ → ℕ → ℕ → ℕ → Type 0
IsDepositPrice amount balance supply mana =
    ((supply ≡ 0) × (mana ≡ amount))
    ⊎ ((0 < supply) × (0 < balance) × IsFloor (amount * supply) balance mana)

pub calculate_mana_for_deposit-IsDepositPrice :
    (amount balance supply : ℕ) {mana : ℕ}
    → calculate_mana_for_deposit amount balance supply ≡ ok mana
    → IsDepositPrice amount balance supply mana
unfolding calculate_mana_for_deposit checked_mul checked_div narrow
calculate_mana_for_deposit-IsDepositPrice amount balance supply {mana} h =
    ground (arith, div-IsFloor (amount * supply) balance)

pub calculate_mim_for_redemption-IsFloor :
    (mana balance supply : ℕ) {mim : ℕ}
    → calculate_mim_for_redemption mana balance supply ≡ ok mim
    → IsFloor (mana * balance) supply mim × (0 < supply)
unfolding calculate_mim_for_redemption checked_mul checked_div narrow
calculate_mim_for_redemption-IsFloor mana balance supply {mim} h =
    ground (arith, div-IsFloor (mana * balance) supply)

-- The deposit raises the MIM behind each Mana, or leaves it.
pub deposit_price_kept :
    (amount balance supply mana : ℕ)
    → 0 < supply
    → IsDepositPrice amount balance supply mana
    → balance * (supply + mana) ≤ (balance + amount) * supply
deposit_price_kept amount balance supply mana pos (inl none_yet) = absurd (omega arith)
deposit_price_kept amount balance supply mana pos (inr (_, _, floor)) = omega arith

-- So does a redemption.
pub redemption_price_kept :
    (mana balance supply mim rest : ℕ)
    → IsFloor (mana * balance) supply mim
    → balance ≡ rest + mim
    → balance * (supply - mana) ≤ rest * supply
redemption_price_kept mana balance supply mim rest floor split =
    let e = ap (λ (n : ℕ). n * supply) split in
    elim (le_total mana supply) [
      | inl within ↦
          let parts : supply ≡ (supply - mana) + mana = omega arith in
          omega (arith, ap (λ (n : ℕ). balance * n) parts)
      | inr beyond ↦ let nothing : supply - mana ≡ 0 = omega arith in rw nothing (omega arith)
    ]
  where
    le_total : (a b : ℕ) → (a ≤ b) ⊎ (b ≤ a)
    le_total a b = grind arith

-- Mana that a deposit has minted cannot be redeemed at once for more than was deposited, where there
-- was active Mana before: the deposit of `amount` mints `mana`, and the redemption of that Mana at
-- the balance and supply that the deposit leaves pays at most `amount`.
pub deposit-redeem_le :
    (amount balance supply : ℕ) {mana mim : ℕ}
    → 0 < supply
    → calculate_mana_for_deposit amount balance supply ≡ ok mana
    → calculate_mim_for_redemption mana (balance + amount) (supply + mana) ≡ ok mim
    → mim ≤ amount
deposit-redeem_le amount balance supply {mana} {mim} pos minted redeemed =
    let price = calculate_mana_for_deposit-IsDepositPrice amount balance supply minted in
    let kept = deposit_price_kept amount balance supply mana pos price in
    let (floor, _) =
      calculate_mim_for_redemption-IsFloor mana (balance + amount) (supply + mana) redeemed in
    let bound : mim * (supply + mana) < (amount + 1) * (supply + mana) = omega arith in
    omega (arith, lt_of_mul-lt-mul_right (supply + mana) bound)

-- A redemption of no more than the active Mana pays no more than the active MIM.
pub calculate_mim_for_redemption-le :
    (mana balance supply : ℕ) {mim : ℕ}
    → mana ≤ supply
    → calculate_mim_for_redemption mana balance supply ≡ ok mim
    → mim ≤ balance
calculate_mim_for_redemption-le mana balance supply {mim} within h =
    let (floor, pos) = calculate_mim_for_redemption-IsFloor mana balance supply h in
    let product = mul-le-mul_right balance within in
    let bound : mim * supply < (balance + 1) * supply = omega arith in
    omega (arith, lt_of_mul-lt-mul_right supply bound)
