-- ===== src/Curve/ShareLaws.antt =====
-- The exchange of lp tokens for trading tokens (programs/cp-swap/src/curve/constant_product.rs).
use mim_swap_sol.Prelude.{
  ℕ, ◌+◌, ◌*◌, ◌/◌, ◌≤◌, ◌<◌, ◌≡◌, ◌≢◌, ◌⊎◌, ap, none, some, arith, checked_mul, checked_div,
  checked_rem,
}
use mim_swap_sol.Curve.FeeLaws.{IsCeil, IsFloor, div-IsFloor}
use mim_swap_sol.Curve.Exchange.{div-IsCeil, suc-div-IsCeil}
use mim_swap_sol.Curve.ConstantProduct.{
  RoundDirection, TradingTokenResult, floor_share, ceiling_share, round_shares,
  lp_tokens_to_trading_tokens,
}

-- What `lp` of `supply` lp tokens are worth in a vault, rounded by `Rounded`.
abbrev pub SharesBy : (ℕ → ℕ → ℕ → Type 0) → ℕ → ℕ → ℕ → ℕ → TradingTokenResult → Type 0
SharesBy Rounded lp supply vault_0 vault_1 r =
    Rounded (lp * vault_0) supply r.token_0_amount × Rounded (lp * vault_1) supply r.token_1_amount

floor_share-IsFloor :
    (lp supply vault : ℕ) {q : ℕ}
    → floor_share lp supply vault ≡ some q
    → IsFloor (lp * vault) supply q × (q ≡ lp * vault / supply) × (0 < supply)
unfolding floor_share checked_mul checked_div
floor_share-IsFloor lp supply vault {q} h = ground (arith, div-IsFloor (lp * vault) supply)

floor_share-cases :
    (lp supply vault : ℕ)
    → (floor_share lp supply vault ≡ none)
      ⊎ (floor_share lp supply vault ≡ some (lp * vault / supply)) × (0 < supply)
unfolding floor_share checked_mul checked_div
floor_share-cases lp supply vault = ground arith

ceiling_share-IsCeil :
    (lp supply vault q : ℕ) {r : ℕ}
    → q ≡ lp * vault / supply
    → 0 < supply
    → ceiling_share lp supply vault q ≡ some r
    → r ≢ 0
    → IsCeil (lp * vault) supply r
unfolding ceiling_share checked_mul checked_rem
ceiling_share-IsCeil lp supply vault q {r} e pos h nonzero =
    ground (arith, div-IsCeil (lp * vault) supply, suc-div-IsCeil (lp * vault) supply)

module _ (lp supply vault_0 vault_1 : ℕ) {r : TradingTokenResult} where
  pub floor-SharesBy :
      lp_tokens_to_trading_tokens lp supply vault_0 vault_1 RoundDirection.floor ≡ some r
      → SharesBy IsFloor lp supply vault_0 vault_1 r × (0 < supply)
  unfolding lp_tokens_to_trading_tokens round_shares
  floor-SharesBy h = ground (
    arith,
    floor_share-IsFloor lp supply vault_0 {q = r.token_0_amount},
    floor_share-IsFloor lp supply vault_1 {q = r.token_1_amount},
  )

  pub ceiling-SharesBy :
      lp_tokens_to_trading_tokens lp supply vault_0 vault_1 RoundDirection.ceiling ≡ some r
      → r.token_0_amount ≢ 0
      → r.token_1_amount ≢ 0
      → SharesBy IsCeil lp supply vault_0 vault_1 r × (0 < supply)
  unfolding lp_tokens_to_trading_tokens round_shares
  ceiling-SharesBy h n0 n1 = ground (
    arith,
    floor_share-cases lp supply vault_0,
    floor_share-cases lp supply vault_1,
    ceiling_share-IsCeil lp supply vault_0 (lp * vault_0 / supply) {r = r.token_0_amount},
    ceiling_share-IsCeil lp supply vault_1 (lp * vault_1 / supply) {r = r.token_1_amount},
  )

-- A deposit that pays at least its share does not lower the vault's worth of one lp token.
pub share_rises_on_deposit :
    (v supply lp paid : ℕ) → IsCeil (lp * v) supply paid → v * (supply + lp) ≤ (v + paid) * supply
share_rises_on_deposit v supply lp paid h = omega arith

-- Nor does a withdrawal that takes at most its share.
pub share_rises_on_withdrawal :
    (v supply lp taken rest left : ℕ)
    → IsFloor (lp * v) supply taken
    → v ≡ taken + rest
    → supply ≡ lp + left
    → v * left ≤ rest * supply
share_rises_on_withdrawal v supply lp taken rest left h e e' =
    omega (arith, ap (λ (t : ℕ). v * t) e', ap (λ (t : ℕ). t * supply) e)
